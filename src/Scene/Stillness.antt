-- ===== src/Scene/Stillness.antt =====
-- What a robot does under reduced motion, frontend/src/three/RobotPersona.tsx.
use council.Prelude.{
  ◌≡◌, refl, ap, ◌∙◌, Bool, true, false, if◌then◌else◌, Option, some, List, [], ◌∷◌, arith,
}
use council.Stage.Robot.{RobotStatus, RobotVisualState}
use council.Stage.Animation.{RobotTargets, targets_for, flashes}
use council.Scene.Three.{Three, HasZero}
use council.Scene.Body.{RobotProps, ring_base, chest_base}
use council.Scene.Head.{visor_base, tip_base}
use council.Scene.Motion.{
  Motion, frame, frames, visual_of, is_still, flash_of, pulse_of, ease, glow_target, unit,
  flash_peak, flash_lambda,
}

-- At rest: upright, level and without a flash.
pub record AtRest (t : Three) (m : Motion t.Real) : Type 0 where
  pub flat : m.flash_level ≡ t.part 0 1
  pub upright : m.bob_y ≡ some (t.part 0 1)
  pub level_z : m.head_z ≡ some (t.part 0 1)
  pub level_x : m.head_x ≡ some (t.part 0 1)

-- Every frame's props ask for reduced motion.
abbrev pub AllStill : {R : Type 0} → List (RobotProps R × R × R) → Type 0
AllStill [] = Unit
AllStill ((p, clock, delta) ∷ fs) = (is_still p ≡ true) × AllStill fs

module _ (t : Three) where
  open t use {Real, part, add, mul, least, sin, damp}

  -- A frame that reads no clock: the lights alone ease, each to the steady glow of its status.
  unfoldable pub still_frame : RobotProps Real → Real → Motion Real → Motion Real
  unfolding visual_of targets_for ease
  still_frame p delta m =
      let v : RobotVisualState = visual_of p in
      let w : RobotTargets = targets_for v true in
      let dt : Real = least delta (part 1 10) in
      record m {
        prev_status = v.status;
        spotlight = ease t m.spotlight (mul (unit t w.light) (part 1 1)) dt;
        ring = ease t m.ring (glow_target t (ring_base t) w (part 1 1)) dt;
        chest = ease t m.chest (glow_target t (chest_base t) w (part 1 1)) dt;
        visor = ease t m.visor (glow_target t (visor_base t) w (part 1 1)) dt;
        tip = ease t m.tip (glow_target t (tip_base t) w (part 1 1)) dt;
      }

  unfoldable pub still_frames : List (RobotProps Real × Real × Real) → Motion Real → Motion Real
  unfolding still_frame
  still_frames [] m = m
  still_frames ((p, clock, delta) ∷ fs) m = still_frames fs (still_frame p delta m)

  module _ (z : HasZero t) where
    -- A sway or a bob of size zero is nothing at any time.
    still_wave : (x : Real) → mul (unit t 0) x ≡ part 0 1
    still_wave x = rw (z.part_zero 100000 (omega arith)) (z.mul_zero x)

    still_tilt : (x y : Real) → mul (mul (unit t 0) x) y ≡ part 0 1
    still_tilt x y = rw (still_wave x) (z.mul_zero y)

    still_pulse :
        (b : Bool) (clock : Real)
        → (if b
            then add (part 1 1) (mul (part 35 100) (sin (mul (mul clock (unit t 0)) (part 2 1))))
            else part 1 1)
          ≡ part 1 1
    still_pulse true clock =
        rw
          (
            z.part_zero 100000 (omega arith),
            z.zero_mul clock,
            z.mul_zero (part 2 1),
            z.sin_zero,
            z.zero_mul (part 35 100),
          )
          (z.add_zero (part 1 1))
    still_pulse false clock = refl

    flashes-still :
        (p : RobotProps Real) (prev : RobotStatus) (v : RobotVisualState)
        → is_still p ≡ true
        → flashes p.id (is_still p) prev v ≡ false
    unfolding flashes
    flashes-still p prev v s = ground arith

    pulse_of-still :
        (v : RobotVisualState) (clock : Real) → pulse_of t v (targets_for v true) clock ≡ part 1 1
    unfolding pulse_of targets_for
    pulse_of-still v clock = still_pulse v.speaking clock

    flash_of-still :
        (p : RobotProps Real) (v : RobotVisualState) (dt : Real) (m : Motion Real)
        → is_still p ≡ true
        → m.flash_level ≡ part 0 1
        → flash_of t p v dt m ≡ part 0 1
    unfolding flash_of
    flash_of-still p v dt m s e =
        ap (λ b. damp (if b then flash_peak t else m.flash_level) (part 0 1) (flash_lambda t) dt)
          (flashes-still p m.prev_status v s)
        ∙ (ap (λ x. damp x (part 0 1) (flash_lambda t) dt) e ∙ z.damp_zero (flash_lambda t) dt)

    -- An object at zero that is eased to zero stays as it is.
    ease-rest :
        (o : Option Real) (x dt : Real) → o ≡ some (part 0 1) → x ≡ part 0 1 → ease t o x dt ≡ o
    unfolding ease
    ease-rest o x dt e h = rw (e, h) (ap some (z.damp_zero (part 4 1) dt))

    frame-still :
        (p : RobotProps Real) (clock delta : Real) (m : Motion Real)
        → is_still p ≡ true
        → AtRest t m
        → frame t p clock delta m ≡ still_frame p delta m
    unfolding frame still_frame
    frame-still p clock delta m s r =
        let v : RobotVisualState = visual_of p in
        let dt : Real = least delta (part 1 10) in
        rw (s, pulse_of-still v clock, flash_of-still p v dt m s r.flat, z.add_zero (part 1 1))
          (cc (
            ease-rest m.bob_y (mul (unit t 0) (sin (mul clock (unit t 0)))) dt r.upright
                (still_wave (sin (mul clock (unit t 0)))),
            ease-rest m.head_z (mul (unit t 0) (sin (mul (mul clock (unit t 0)) (part 9 10)))) dt
                r.level_z (still_wave (sin (mul (mul clock (unit t 0)) (part 9 10)))),
            ease-rest m.head_x
                (mul (mul (unit t 0) (part 5 10)) (sin (mul (mul clock (unit t 0)) (part 13 10))))
                dt r.level_x
                (still_tilt (part 5 10) (sin (mul (mul clock (unit t 0)) (part 13 10)))),
            r.flat,
          ))

    still_frame-AtRest :
        (p : RobotProps Real) (delta : Real) (m : Motion Real)
        → AtRest t m
        → AtRest t (still_frame p delta m)
    unfolding still_frame
    still_frame-AtRest p delta m r = record {
      flat = r.flat;
      upright = r.upright;
      level_z = r.level_z;
      level_x = r.level_x;
    }

    -- Under reduced motion a robot at rest does not bob, sway, pulse or
    -- flash: after any frames it is still at rest, and its lights are what they are if no frame reads
    -- the clock. Of zero it is assumed that it is absorbed by sums and absorbs products, that its sine
    -- is zero, and that easing from zero to zero is zero.
    pub frames-still :
        (fs : List (RobotProps Real × Real × Real)) (m : Motion Real)
        → AllStill fs
        → AtRest t m
        → (frames t fs m ≡ still_frames fs m) × AtRest t (frames t fs m)
    unfolding frames still_frames
    frames-still [] m a r = (refl, r)
    frames-still ((p, clock, delta) ∷ fs) m a r =
        rw (frame-still p clock delta m a.0 r)
          (frames-still fs (still_frame p delta m) a.1 (still_frame-AtRest p delta m r))
