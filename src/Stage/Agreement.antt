-- ===== src/Stage/Agreement.antt =====
-- The stage's views compared: robots, bubbles and camera.
use council.Prelude.{◌≡◌, refl, ◌≢◌, true, false, not, some, [], map}
use council.Prelude.Dict
use council.Persona.{PersonaId, same, persona_ids, moderator_id}
use council.Reducer.{DebatePhase, DebateState}
use council.Stage.Robot.{robot_of, robot_visual_state}
use council.Stage.Bubble.{
  BubbleMode, PersonaBubble, latest_round_text, bubble_of, bubbles_from, persona_bubbles,
}

-- The bubble of a persona, given its own robot.
abbrev pub bubble_at : DebateState → PersonaId → PersonaBubble
bubble_at state id = bubble_of state id (robot_of state id)

-- The lookup of a robot by its id never fails: every persona has one bubble, made from its own robot.
pub persona_bubbles_lem :
    (state : DebateState) → persona_bubbles state ≡ some (map (bubble_at state) persona_ids)
unfolding persona_bubbles bubbles_from robot_visual_state robot_of Dict.get
persona_bubbles_lem state = refl

-- The views of one persona while the moderator has the floor.
pub record IsVerdictView (state : DebateState) (id : PersonaId) : Type 0 where
  pub lit : (robot_of state id).dimmed ≡ not (same id moderator_id)
  pub quiet : same id moderator_id ≡ false → (robot_of state id).speaking ≡ false
  pub bare :
      same id moderator_id ≡ false
      → ((bubble_at state id).mode ≡ BubbleMode.nameplate) × ((bubble_at state id).text ≡ [])
  pub head : same id moderator_id ≡ true → (bubble_at state id).mode ≡ BubbleMode.verdict
  pub draft :
      same id moderator_id ≡ true
      → state.phase ≡ DebatePhase.moderating
      → ((bubble_at state id).text ≡ latest_round_text state moderator_id)
        × ((bubble_at state id).streaming ≡ true)
  pub final :
      same id moderator_id ≡ true
      → state.phase ≡ DebatePhase.done
      → ((bubble_at state id).text ≡ state.verdict) × ((bubble_at state id).streaming ≡ false)

-- The views of one persona at all other times.
pub record IsPanelView (state : DebateState) (id : PersonaId) : Type 0 where
  pub lit : (robot_of state id).dimmed ≡ false
  pub plain : (bubble_at state id).mode ≢ BubbleMode.verdict
