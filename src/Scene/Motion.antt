-- ===== src/Scene/Motion.antt =====
-- The frame loop of a robot, frontend/src/three/RobotPersona.tsx.
use council.Prelude.{ℕ, Bool, false, Option, none, some, List, [], ◌∷◌, if◌then◌else◌}
use council.Stage.Robot.{RobotStatus, RobotVisualState}
use council.Stage.Animation.{RobotTargets, targets_for, resting_visual, flashes}
use council.Scene.Three.{Three}
use council.Scene.Body.{RobotProps, or_default, ring_base, chest_base}
use council.Scene.Head.{visor_base, tip_base}

-- The refs. An object that is not mounted yet has no number.
pub record Motion (R : Type 0) : Type 0 where
  pub prev_status : RobotStatus
  pub flash_level : R
  pub bob_y : Option R
  pub head_z : Option R
  pub head_x : Option R
  pub spotlight : Option R
  pub ring : Option R
  pub chest : Option R
  pub visor : Option R
  pub tip : Option R

-- What a frame makes of the props.
unfoldable pub visual_of : {R : Type 0} → RobotProps R → RobotVisualState
unfolding resting_visual
visual_of p = or_default (resting_visual p.id) p.visual

unfoldable pub is_still : {R : Type 0} → RobotProps R → Bool
is_still p = or_default false p.reduced_motion

module _ (t : Three) where
  open t use {Real, part, add, mul, least, sin, damp}

  abbrev pub pulse_depth : Real
  pulse_depth = part 35 100

  abbrev pub lambda : Real
  lambda = part 4 1

  abbrev pub flash_peak : Real
  flash_peak = part 12 10

  abbrev pub flash_lambda : Real
  flash_lambda = part 3 1

  -- A number of the targets, as a fraction of one.
  abbrev pub unit : ℕ → Real
  unit n = part n 100000

  unfoldable pub new_motion : Motion Real
  new_motion = record {
    prev_status = RobotStatus.idle;
    flash_level = part 0 1;
    bob_y = none;
    head_z = none;
    head_x = none;
    spotlight = none;
    ring = none;
    chest = none;
    visor = none;
    tip = none;
  }

  -- React attaches the refs of a robot: the numbers that its elements start with.
  unfoldable pub mounted : Motion Real → Motion Real
  mounted m = record m {
    bob_y = some (part 0 1);
    head_z = some (part 0 1);
    head_x = some (part 0 1);
    spotlight = some (part 0 1);
    ring = some (ring_base t);
    chest = some (chest_base t);
    visor = some (visor_base t);
    tip = some (tip_base t);
  }

  unfoldable pub pulse_of : RobotVisualState → RobotTargets → Real → Real
  pulse_of v w clock =
      if v.speaking
      then add (part 1 1) (mul pulse_depth (sin (mul (mul clock (unit w.speed)) (part 2 1))))
      else part 1 1

  -- The flash of the frame, before and after it decays.
  unfoldable pub flash_of : RobotProps Real → RobotVisualState → Real → Motion Real → Real
  unfolding flashes is_still
  flash_of p v dt m =
      damp (if flashes p.id (is_still p) m.prev_status v then flash_peak else m.flash_level)
        (part 0 1) flash_lambda dt

  unfoldable pub ease : Option Real → Real → Real → Option Real
  ease none target dt = none
  ease (some x) target dt = some (damp x target lambda dt)

  abbrev pub glow_target : Real → RobotTargets → Real → Real
  glow_target base w glow_pulse = mul (mul base (unit w.emissive)) glow_pulse

  -- `useFrame`'s callback, `delta` seconds after the frame before.
  unfoldable pub frame : RobotProps Real → Real → Real → Motion Real → Motion Real
  unfolding visual_of is_still pulse_of flash_of ease targets_for
  frame p clock delta m =
      let v : RobotVisualState = visual_of p in
      let w : RobotTargets = targets_for v (is_still p) in
      let dt : Real = least delta (part 1 10) in
      let flash : Real = flash_of p v dt m in
      let glow_pulse : Real = add (pulse_of v w clock) flash in
      record {
        prev_status = v.status;
        flash_level = flash;
        bob_y = ease m.bob_y (mul (unit w.bob) (sin (mul clock (unit w.speed)))) dt;
        head_z =
            ease m.head_z (mul (unit w.sway) (sin (mul (mul clock (unit w.speed)) (part 9 10)))) dt;
        head_x =
            ease m.head_x
              (mul (mul (unit w.sway) (part 5 10))
                (sin (mul (mul clock (unit w.speed)) (part 13 10))))
              dt;
        spotlight = ease m.spotlight (mul (unit w.light) glow_pulse) dt;
        ring = ease m.ring (glow_target (ring_base t) w glow_pulse) dt;
        chest = ease m.chest (glow_target (chest_base t) w glow_pulse) dt;
        visor = ease m.visor (glow_target (visor_base t) w glow_pulse) dt;
        tip = ease m.tip (glow_target (tip_base t) w glow_pulse) dt;
      }

  -- A robot's frames, each with the props that it was last rendered with.
  unfoldable pub frames : List (RobotProps Real × Real × Real) → Motion Real → Motion Real
  unfolding frame
  frames [] m = m
  frames ((p, clock, delta) ∷ fs) m = frames fs (frame p clock delta m)
