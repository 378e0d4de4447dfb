-- ===== src/Scene/Framing.antt =====
-- The coordinates of the camera's shots, frontend/src/three/cameraTarget.ts.
use council.Persona.{PersonaId}
use council.Reducer.{DebateState}
use council.Stage.Camera.{CameraTarget, seat, wide, camera_target_for}
use council.Scene.Three.{Three}
use council.Scene.Seating.{Place, seat_of, head_label_height}

-- A shot: the point that the camera looks at, and how far it stands.
pub record Shot (R : Type 0) : Type 0 where
  pub look_at : Place R
  pub distance : R

module _ (t : Three) where
  open t use {Real, part, neg, add}

  abbrev pub focus_height : Real
  focus_height = add (head_label_height t) (neg (part 9 10))

  unfoldable pub focus_seat : PersonaId → Shot Real
  focus_seat id = record {
    look_at = record { x = (seat_of t id).place.x; y = focus_height; z = (seat_of t id).place.z };
    distance = part 62 10;
  }

  -- The shot of a target; the wide one is on the table's centre.
  unfoldable pub shot_of : CameraTarget → Shot Real
  unfolding focus_seat
  shot_of (seat id) = focus_seat id
  shot_of wide = record {
    look_at = record { x = part 0 1; y = part 9 10; z = part 0 1 };
    distance = part 84 10;
  }

  unfoldable pub shot_for : DebateState → Shot Real
  unfolding shot_of
  shot_for state = shot_of (camera_target_for state)
