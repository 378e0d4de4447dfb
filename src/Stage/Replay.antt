-- ===== src/Stage/Replay.antt =====
-- The stage during a replay: the player's rule of one speaker, seen through the camera.
use council.Prelude.{◌≤◌, ◌≡◌, List, [], ◌∷◌, arith, length, subst}
use council.Persona.{PersonaId}
use council.Reducer.{DebatePhase, DebateState}
use council.Player.State.{Player}
use council.Player.Session.{Session}
use council.Player.Shown.{shown}
use council.Player.Speaker.{Session-one_speaker}
use council.Stage.Camera.{seat, speaker_target, camera_target_for}

speaker_target-alone :
    (x : PersonaId) (ps : List PersonaId) → length (x ∷ ps) ≤ 1 → speaker_target (x ∷ ps) ≡ seat x
unfolding speaker_target
speaker_target-alone x [] h = ground arith
speaker_target-alone x (y ∷ ps) h = absurd (omega arith)

camera_target-debating :
    (s : DebateState) (x : PersonaId) (ps : List PersonaId)
    → s.phase ≡ DebatePhase.debating
    → s.active_speakers ≡ x ∷ ps
    → length s.active_speakers ≤ 1
    → camera_target_for s ≡ seat x
unfolding camera_target_for
camera_target-debating s x ps d r one =
    rw (d, r) (speaker_target-alone x ps (subst (λ l. length l ≤ 1) r one))

-- At every moment of a session in the phase "debating", if anybody is on the roster, the camera
-- frames the seat of the first persona on it: the wide shot is for an empty roster only.
pub Session-camera_target_for :
    {p : Player} (x : PersonaId) (ps : List PersonaId)
    → Session p
    → (shown p).phase ≡ DebatePhase.debating
    → (shown p).active_speakers ≡ x ∷ ps
    → camera_target_for (shown p) ≡ seat x
Session-camera_target_for {p} x ps s d r =
    camera_target-debating (shown p) x ps d r (Session-one_speaker s)
