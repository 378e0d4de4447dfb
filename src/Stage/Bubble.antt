-- ===== src/Stage/Bubble.antt =====
-- One speech bubble for each persona, frontend/src/three/bubbleContent.ts, with the names and roles
-- of frontend/src/personas/registry.ts.
use mathlib.Core.Option
use council.Prelude.{
  ℕ, ℕ-Key, Bool, true, false, Option, none, some, List, [], ◌∷◌, map, Text, text, ltb,
  if◌then◌else◌,
}
use council.Prelude.Dict
use council.Prelude.Dict.{Dict}
use council.Persona.{
  PersonaId, PersonaId-Key, skeptic, optimist, expert, contrarian, moderator, same, persona_ids,
  moderator_id,
}
use council.Reducer.{DebatePhase, DebateState, rounds_of, text_at}
use council.Stage.Robot.{RobotStatus, RobotVisualState, verdict_phases, robot_visual_state}

abbrev pub display_name : PersonaId → Text
display_name skeptic = text "The Skeptic"
display_name optimist = text "The Optimist"
display_name expert = text "Domain Expert"
display_name contrarian = text "The Contrarian"
display_name moderator = text "The Moderator"

abbrev pub role : PersonaId → Text
role skeptic = text "Stress-tests the claim"
role optimist = text "Argues the upside"
role expert = text "Brings the evidence"
role contrarian = text "Reframes the problem"
role moderator = text "Synthesizes the verdict"

pub data BubbleMode : Type 0 where
  nameplate streaming settled verdict : BubbleMode

pub record PersonaBubble : Type 0 where
  pub id : PersonaId
  pub display_name : Text
  pub role : Text
  pub text : Text
  pub mode : BubbleMode
  pub streaming : Bool
  pub dimmed : Bool

-- `Math.max` of the rounds that have a text.
unfoldable pub latest_round : ℕ → Dict ℕ Text → ℕ
latest_round best [] = best
latest_round best ((r, t) ∷ rounds) = latest_round (if ltb best r then r else best) rounds

unfoldable pub latest_text : Dict ℕ Text → Text
unfolding latest_round text_at
latest_text [] = []
latest_text ((r, t) ∷ rounds) = text_at (latest_round r rounds) ((r, t) ∷ rounds)

unfoldable pub latest_round_text : DebateState → PersonaId → Text
unfolding latest_text rounds_of
latest_round_text state id = latest_text (rounds_of id state.transcript)

-- `{ ...base, text, mode, streaming }`.
abbrev pub bubble : PersonaId → Bool → Text → BubbleMode → Bool → PersonaBubble
bubble id dimmed words mode live = record {
  id = id;
  display_name = display_name id;
  role = role id;
  text = words;
  mode = mode;
  streaming = live;
  dimmed = dimmed;
}

unfoldable pub panelist_bubble : DebateState → RobotVisualState → PersonaBubble
unfolding latest_round_text
panelist_bubble state visual =
    if verdict_phases state.phase
    then bubble visual.id visual.dimmed [] BubbleMode.nameplate false
    else elim visual.status [
      | RobotStatus.talking ↦
          bubble visual.id visual.dimmed (latest_round_text state visual.id) BubbleMode.streaming
            true
      | RobotStatus.done ↦
          bubble visual.id visual.dimmed (latest_round_text state visual.id) BubbleMode.settled
            false
      | _ ↦ bubble visual.id visual.dimmed [] BubbleMode.nameplate false
    ]

unfoldable pub moderator_bubble : DebateState → RobotVisualState → PersonaBubble
unfolding latest_round_text
moderator_bubble state visual = elim state.phase [
  | DebatePhase.moderating ↦
      bubble moderator_id visual.dimmed (latest_round_text state moderator_id) BubbleMode.verdict
        true
  | DebatePhase.done ↦ bubble moderator_id visual.dimmed state.verdict BubbleMode.verdict false
  | _ ↦ bubble moderator_id visual.dimmed [] BubbleMode.nameplate false
]

-- The bubble of one persona, from its robot.
unfoldable pub bubble_of : DebateState → PersonaId → RobotVisualState → PersonaBubble
unfolding panelist_bubble moderator_bubble
bubble_of state id visual =
    if same id moderator_id then moderator_bubble state visual else panelist_bubble state visual

-- The `map` over the ids; `none` is a failure of `byId.get(id)!`.
unfoldable pub bubbles_from :
    DebateState → Dict PersonaId RobotVisualState → List PersonaId → Option (List PersonaBubble)
unfolding bubble_of
bubbles_from state by_id [] = some []
bubbles_from state by_id (id ∷ ids) =
    let rest : Option (List PersonaBubble) = bubbles_from state by_id ids in
    elim (Dict.get id by_id) [
      | none ↦ none
      | some visual ↦ Option.map (λ bs. bubble_of state id visual ∷ bs) rest
    ]

unfoldable pub persona_bubbles : DebateState → Option (List PersonaBubble)
unfolding bubbles_from robot_visual_state
persona_bubbles state =
    bubbles_from state (map (λ v. (v.id, v)) (robot_visual_state state)) persona_ids
