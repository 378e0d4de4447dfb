-- ===== src/Stage/Animation.antt =====
-- How energetic a robot is, frontend/src/three/robotAnimation.ts, and what its component decides,
-- frontend/src/three/RobotPersona.tsx. The numbers are in hundred-thousandths of the source's.
use council.Prelude.{
  ℕ, ◌*◌, ◌/◌, ◌<◌, ◌≤◌, ◌≡◌, Bool, true, false, not, ◌&&◌, Option, none, some, nat_eq,
  if◌then◌else◌, arith,
}
use council.Persona.{PersonaId, same, moderator_id}
use council.Reducer.{DebateState}
use council.Stage.Robot.{
  RobotStatus, RobotVisualState, is_talking, robot_of, status_of, panelist_status, moderator_status,
}

pub record RobotTargets : Type 0 where
  pub emissive : ℕ
  pub bob : ℕ
  pub sway : ℕ
  pub speed : ℕ
  pub light : ℕ

-- `BASE[status]`.
abbrev pub base : RobotStatus → RobotTargets
base RobotStatus.idle = record {
  emissive = 70000;
  bob = 1500;
  sway = 2000;
  speed = 60000;
  light = 35000;
}
base RobotStatus.thinking = record {
  emissive = 95000;
  bob = 3000;
  sway = 5000;
  speed = 140000;
  light = 90000;
}
base RobotStatus.talking = record {
  emissive = 160000;
  bob = 5000;
  sway = 14000;
  speed = 320000;
  light = 260000;
}
base RobotStatus.done = record {
  emissive = 105000;
  bob = 2000;
  sway = 1500;
  speed = 80000;
  light = 100000;
}

-- `DIM_EMISSIVE` and `DIM_LIGHT` in hundredths.
abbrev pub dim_emissive : ℕ
dim_emissive = 12

abbrev pub dim_light : ℕ
dim_light = 5

abbrev pub dim : RobotTargets → RobotTargets
dim t = record t { emissive = t.emissive * dim_emissive / 100; light = t.light * dim_light / 100 }

abbrev pub hold_still : RobotTargets → RobotTargets
hold_still t = record t { bob = 0; sway = 0; speed = 0 }

unfoldable pub targets_for : RobotVisualState → Bool → RobotTargets
targets_for v reduced_motion =
    let dimmed : RobotTargets = if v.dimmed then dim (base v.status) else base v.status in
    if reduced_motion then hold_still dimmed else dimmed

unfoldable pub resting_visual : PersonaId → RobotVisualState
resting_visual id = record {
  id = id;
  status = RobotStatus.idle;
  speaking = false;
  dimmed = false;
  round = 0;
}

-- `status === "done"`.
abbrev pub is_done : RobotStatus → Bool
is_done RobotStatus.done = true
is_done _ = false

-- `a.status === b.status`.
abbrev pub same_status : RobotStatus → RobotStatus → Bool
same_status RobotStatus.idle RobotStatus.idle = true
same_status RobotStatus.thinking RobotStatus.thinking = true
same_status RobotStatus.talking RobotStatus.talking = true
same_status RobotStatus.done RobotStatus.done = true
same_status _ _ = false

-- `a === b` on Booleans.
abbrev pub same_bool : Bool → Bool → Bool
same_bool true b = b
same_bool false b = not b

-- `undefined` is `none`; an object equals itself in every field, so the test of identity decides
-- nothing more.
unfoldable pub visual_equal : Option RobotVisualState → Option RobotVisualState → Bool
visual_equal none none = true
visual_equal (some a) (some b) =
    same_status a.status b.status
    && (same_bool a.speaking b.speaking && (same_bool a.dimmed b.dimmed && nat_eq a.round b.round))
visual_equal _ _ = false

-- The frame's test for the flash of the verdict, given the status of the frame before.
unfoldable pub flashes : PersonaId → Bool → RobotStatus → RobotVisualState → Bool
flashes id reduced_motion prev v =
    same id moderator_id && (not reduced_motion && (not (is_done prev) && is_done v.status))

speaking-lit :
    (state : DebateState) (p : PersonaId)
    → (robot_of state p).speaking ≡ true
    → (robot_of state p).dimmed ≡ false
unfolding robot_of status_of panelist_status moderator_status
speaking-lit state p s = ground arith

talking-targets :
    (v : RobotVisualState) (reduced_motion : Bool)
    → is_talking v.status ≡ true
    → v.dimmed ≡ false
    → ((targets_for v reduced_motion).emissive ≡ 160000)
      × ((targets_for v reduced_motion).light ≡ 260000)
unfolding targets_for
talking-targets v reduced_motion s d = ground arith

silent-targets :
    (v : RobotVisualState) (reduced_motion : Bool)
    → is_talking v.status ≡ false
    → ((targets_for v reduced_motion).emissive ≤ 105000)
      × ((targets_for v reduced_motion).light ≤ 100000)
unfolding targets_for
silent-targets v reduced_motion s = ground arith

-- The targets of a speaking robot are the brightest: in every state it is not dimmed, and its targets
-- of glow and of light, before the pulse and the easing of the frames, are above those of every robot
-- that does not speak, with or without reduced motion.
pub targets_for-brightest :
    (state : DebateState) (p q : PersonaId) (reduced_motion : Bool)
    → (robot_of state p).speaking ≡ true
    → (robot_of state q).speaking ≡ false
    → let a : RobotTargets = targets_for (robot_of state p) reduced_motion in
      let b : RobotTargets = targets_for (robot_of state q) reduced_motion in
      ((robot_of state p).dimmed ≡ false) × (b.emissive < a.emissive) × (b.light < a.light)
unfolding targets_for robot_of status_of panelist_status moderator_status
targets_for-brightest state p q reduced_motion s t =
    let lit : (robot_of state p).dimmed ≡ false = speaking-lit state p s in
    let strong : ((targets_for (robot_of state p) reduced_motion).emissive ≡ 160000)
        × ((targets_for (robot_of state p) reduced_motion).light ≡ 260000) =
      talking-targets (robot_of state p) reduced_motion s lit in
    let weak : ((targets_for (robot_of state q) reduced_motion).emissive ≤ 105000)
        × ((targets_for (robot_of state q) reduced_motion).light ≤ 100000) =
      silent-targets (robot_of state q) reduced_motion t in
    (lit, omega (arith, strong.0, weak.0), omega (arith, strong.1, weak.1))
