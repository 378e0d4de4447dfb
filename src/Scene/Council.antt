-- ===== src/Scene/Council.antt =====
-- The whole scene, frontend/src/three: StageScene.tsx, DebateStage.tsx and StageEffects.tsx.
use mathlib.Core.Option
use council.Prelude.{map, Bool, not, Option, none, some, List, [], ◌∷◌, Text, if◌then◌else◌}
use council.Prelude.Dict
use council.Prelude.Dict.{Dict}
use council.Persona.{PersonaId, PersonaId-Key, same, persona_ids, moderator_id, palette, accent_of}
use council.Reducer.{DebateState}
use council.Stage.Robot.{RobotVisualState, robot_visual_state}
use council.Stage.Bubble.{PersonaBubble, persona_bubbles}
use council.Hooks.Frameloop.{FrameloopMode}
use council.Scene.Three.{Three}
use council.Scene.Seating.{Place, seat_of, head_label_height}
use council.Scene.Framing.{Shot, shot_for}
use council.Scene.Body.{RobotProps, robot_persona}
use council.Scene.Chamber.{chamber}
use council.Scene.Label.{persona_label}
use council.Scene.Tree.{Scene, nothing, grouped, each, ◌⊹◌}

-- The bloom pass.
pub record Bloom (R : Type 0) : Type 0 where
  pub luminance_threshold : R
  pub luminance_smoothing : R
  pub strength : R
  pub radius : R

-- `OrbitControls`: where it looks, and its limits.
pub record Orbit (R : Type 0) : Type 0 where
  pub target : Place R
  pub min_distance : R
  pub max_distance : R
  pub min_polar : R
  pub max_polar : R
  pub min_azimuth : R
  pub max_azimuth : R

-- What the scene mounts at a seat: the props of the robot, and the bubble of its label if there is one.
pub record Seated (R : Type 0) : Type 0 where
  pub robot : RobotProps R
  pub bubble : Option PersonaBubble

-- The canvas with what it mounts; `shot` and `still` are what the camera's director is given.
pub record Canvas (R : Type 0) : Type 0 where
  pub frameloop : FrameloopMode
  pub camera : Place R
  pub fov : R
  pub background : Text
  pub seats : List (Seated R)
  pub effects : Option (Bloom R)
  pub shot : Shot R
  pub still : Bool
  pub orbit : Orbit R

-- `new Map(xs.map((x) => [x.id, x]))`, where the later of two equal ids wins.
unfoldable pub collect {ℓ} :
    {A : Type ℓ} → (A → PersonaId) → Dict PersonaId A → List A → Dict PersonaId A
unfolding Dict.set
collect f d [] = d
collect f d (x ∷ xs) = collect f (Dict.set (f x) x d) xs

unfoldable pub by_id {ℓ} : {A : Type ℓ} → (A → PersonaId) → List A → Dict PersonaId A
unfolding collect
by_id f xs = collect f [] xs

module _ (t : Three) where
  open t use {Real, part, neg, add, mul, pi}

  unfoldable pub label_position : PersonaId → Place Real
  label_position id = record {
    x = (seat_of t id).place.x;
    y = add (head_label_height t) (if same id moderator_id then part 25 100 else part 0 1);
    z = (seat_of t id).place.z;
  }

  -- What a persona's robot is given.
  unfoldable pub props_of : List RobotVisualState → Bool → PersonaId → RobotProps Real
  unfolding by_id Dict.get
  props_of visuals reduced_motion id = record {
    id = id;
    accent = accent_of id;
    place = (seat_of t id).place;
    rotation_y = (seat_of t id).rotation_y;
    size = some (if same id moderator_id then part 112 100 else part 1 1);
    visual = Dict.get id (by_id (λ v. v.id) visuals);
    shape = none;
    reduced_motion = some reduced_motion;
  }

  unfoldable pub stage_effects : Bloom Real
  stage_effects = record {
    luminance_threshold = part 1 1;
    luminance_smoothing = part 15 100;
    strength = part 6 10;
    radius = part 55 100;
  }

  unfoldable pub orbit_controls : Orbit Real
  orbit_controls = record {
    target = record { x = part 0 1; y = part 9 10; z = part 0 1 };
    min_distance = part 5 1;
    max_distance = part 12 1;
    min_polar = mul pi (part 18 100);
    max_polar = mul pi (part 46 100);
    min_azimuth = mul (neg pi) (part 33 100);
    max_azimuth = mul pi (part 33 100);
  }

module _ (t : Three) (reveal : Text → Bool → Text) where
  open t use {Real, part}

  -- `bubble && <PersonaLabel />`.
  unfoldable pub label_for : PersonaId → Option PersonaBubble → Scene Real
  unfolding persona_label label_position
  label_for id none = nothing
  label_for id (some bubble) = persona_label t reveal bubble (label_position t id)

  -- A robot with its label.
  unfoldable pub mount : Seated Real → Scene Real
  mount s = grouped [] (robot_persona t s.robot ⊹ label_for s.robot.id s.bubble)

  -- The scene that the seats make.
  unfoldable pub scene_of : List (Seated Real) → Scene Real
  scene_of seats = chamber t ⊹ each mount seats

module _ (t : Three) where
  open t use {Real, part}

  -- What a persona's group is given.
  unfoldable pub seated :
      List RobotVisualState → List PersonaBubble → Bool → PersonaId → Seated Real
  unfolding props_of by_id Dict.get
  seated visuals bubbles reduced_motion id = record {
    robot = props_of t visuals reduced_motion id;
    bubble = Dict.get id (by_id (λ b. b.id) bubbles);
  }

  unfoldable pub stage_scene :
      List RobotVisualState → List PersonaBubble → Bool → List (Seated Real)
  unfolding seated
  stage_scene visuals bubbles reduced_motion =
      map (seated visuals bubbles reduced_motion) persona_ids

  -- What the canvas mounts for the bubbles, in the mode that the frame loop's hook gives.
  unfoldable pub canvas_of : DebateState → List PersonaBubble → FrameloopMode → Bool → Canvas Real
  canvas_of state bubbles mode reduced_motion = record {
    frameloop = mode;
    camera = record { x = part 52 10; y = part 42 10; z = part 64 10 };
    fov = part 38 1;
    background = palette.bg;
    seats = stage_scene (robot_visual_state state) bubbles reduced_motion;
    effects = if not reduced_motion then some (stage_effects t) else none;
    shot = shot_for t state;
    still = reduced_motion;
    orbit = orbit_controls t;
  }

  -- `none` is a failure of `personaBubbles`.
  unfoldable pub debate_stage : DebateState → FrameloopMode → Bool → Option (Canvas Real)
  unfolding canvas_of
  debate_stage state mode reduced_motion =
      Option.map (λ bubbles. canvas_of state bubbles mode reduced_motion) (persona_bubbles state)
