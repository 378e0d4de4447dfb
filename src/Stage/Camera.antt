-- ===== src/Stage/Camera.antt =====
-- What the camera frames, frontend/src/three/cameraTarget.ts. A target is a seat or the whole
-- council; the coordinates of the shots are in `Scene.Framing`.
use council.Prelude.{List, [], ◌∷◌, if◌then◌else◌}
use council.Persona.{PersonaId, moderator_id}
use council.Reducer.{DebatePhase, DebateState}
use council.Stage.Robot.{verdict_phases}

pub data CameraTarget : Type 0 where
  seat : PersonaId → CameraTarget
  wide : CameraTarget

-- The target while panelists debate: the seat of a speaker who is alone on the roster.
unfoldable pub speaker_target : List PersonaId → CameraTarget
speaker_target [] = wide
speaker_target (p ∷ []) = seat p
speaker_target (p ∷ q ∷ ps) = wide

unfoldable pub camera_target_for : DebateState → CameraTarget
unfolding speaker_target
camera_target_for state =
    if verdict_phases state.phase
    then seat moderator_id
    else elim state.phase [ DebatePhase.debating ↦ speaker_target state.active_speakers | _ ↦ wide ]
