-- ===== src/Reducer.antt =====
-- The debate reducer, frontend/src/state/debateReducer.ts: a pure step on the debate's state.
-- `WsStatus` is the transport status of frontend/src/lib/wsClient.ts.
pub mod Transcript
pub mod Invariant
pub mod Phases
use council.Prelude.{
  ℕ, ◌+◌, ◌-◌, Bool, true, false, not, ◌||◌, Option, none, some, List, [], ◌∷◌, ◌++◌, Text, text,
  ◌≡◌, refl, ltb, if◌then◌else◌, length, take, drop, keep, capped, ℕ-Key,
}
use council.Prelude.Dict
use council.Prelude.Dict.{Dict}
use council.Persona.{PersonaId, PersonaId-Key, same, moderator_id}
use council.Protocol.{DebateEvent, ErrorEvent, token, persona_done, round_complete, verdict}

-- `opened` is the source's "open", which is a reserved word here.
pub data WsStatus : Type 0 where
  idle connecting opened closed error : WsStatus

pub data DebatePhase : Type 0 where
  idle connecting debating moderating done stopped error : DebatePhase

pub record DebateError : Type 0 where
  pub persona : Option PersonaId
  pub message : Text

pub record DebateState : Type 0 where
  pub phase : DebatePhase
  pub current_round : ℕ
  pub transcript : Dict PersonaId (Dict ℕ Text)
  pub active_speakers : List PersonaId
  pub verdict : Text
  pub errors : List DebateError

pub data ControlInput : Type 0 where
  status : WsStatus → ControlInput
  transport : Text → ControlInput
  cancel : ControlInput

pub data DebateInput : Type 0 where
  event : DebateEvent → DebateInput
  control : ControlInput → DebateInput

abbrev pub max_errors : ℕ
max_errors = 50

abbrev pub max_cell_chars : ℕ
max_cell_chars = 200000

abbrev pub initial_state : DebateState
initial_state = record {
  phase = DebatePhase.idle;
  current_round = 0;
  transcript = [];
  active_speakers = [];
  verdict = [];
  errors = [];
}

-- `TERMINAL.has(phase)`.
abbrev pub terminal : DebatePhase → Bool
terminal DebatePhase.done = true
terminal DebatePhase.stopped = true
terminal DebatePhase.error = true
terminal _ = false

unfoldable pub with_active : List PersonaId → PersonaId → List PersonaId
with_active active persona = if Dict.has persona active then active else active ++ persona ∷ []

unfoldable pub without_active : List PersonaId → PersonaId → List PersonaId
without_active active persona = keep (λ p. not (same p persona)) active

unfoldable pub with_error : List DebateError → DebateError → List DebateError
with_error errors err =
    let next : List DebateError = errors ++ err ∷ [] in
    if ltb max_errors (length next) then drop (length next - max_errors) next else next

-- `transcript[persona] ?? {}`.
unfoldable pub rounds_of : PersonaId → Dict PersonaId (Dict ℕ Text) → Dict ℕ Text
rounds_of persona transcript = elim (Dict.get persona transcript) [ none ↦ [] | some r ↦ r ]

-- `personaRounds[round] ?? ""`.
unfoldable pub text_at : ℕ → Dict ℕ Text → Text
text_at round rounds = elim (Dict.get round rounds) [ none ↦ [] | some t ↦ t ]

unfoldable pub append_delta :
    Dict PersonaId (Dict ℕ Text) → PersonaId → ℕ → Text → Dict PersonaId (Dict ℕ Text)
unfolding rounds_of text_at
append_delta transcript persona round delta =
    let persona_rounds : Dict ℕ Text = rounds_of persona transcript in
    let existing : Text = text_at round persona_rounds in
    Dict.set persona (Dict.set round (capped max_cell_chars (existing ++ delta)) persona_rounds)
      transcript

unfoldable pub reduce_status : DebateState → WsStatus → DebateState
reduce_status state WsStatus.connecting = record initial_state { phase = DebatePhase.connecting }
reduce_status state WsStatus.closed = if terminal state.phase then state else record state {
  phase = DebatePhase.error;
  active_speakers = [];
  errors =
      with_error state.errors
        (record { persona = none; message = text "connection closed before a verdict" });
}
reduce_status state _ = state

unfoldable pub reduce_control : DebateState → ControlInput → DebateState
unfolding reduce_status
reduce_control state (transport message) = record state {
  errors = with_error state.errors (record { persona = none; message = message });
}
reduce_control state cancel =
    if terminal state.phase
    then state
    else record state { phase = DebatePhase.stopped; active_speakers = [] }
reduce_control state (status s) = reduce_status state s

-- `event.persona === undefined || event.persona === "moderator"`.
abbrev pub is_terminal_error : Option PersonaId → Bool
is_terminal_error none = true
is_terminal_error (some persona) = same persona moderator_id

-- `event.error || "an error occurred"`.
abbrev pub error_message : Text → Text
error_message [] = text "an error occurred"
error_message (c ∷ s) = c ∷ s

-- The roster after an error: nobody if it is terminal, else all but the speaker that failed.
abbrev pub active_after_error : List PersonaId → Option PersonaId → List PersonaId
active_after_error active none = []
active_after_error active (some persona) =
    if same persona moderator_id then [] else without_active active persona

unfoldable pub reduce_event : DebateState → DebateEvent → DebateState
reduce_event state (token persona round delta) = record state {
  phase = if same persona moderator_id then DebatePhase.moderating else DebatePhase.debating;
  current_round = round;
  transcript = append_delta state.transcript persona round delta;
  active_speakers = with_active state.active_speakers persona;
}
reduce_event state (persona_done persona round) = record state {
  active_speakers = without_active state.active_speakers persona;
}
reduce_event state (round_complete round) = record state { current_round = round }
reduce_event state (verdict v) = record state {
  phase = DebatePhase.done;
  verdict = v;
  active_speakers = without_active state.active_speakers moderator_id;
}
reduce_event state (DebateEvent.error e) = record state {
  phase = if is_terminal_error e.persona then DebatePhase.error else state.phase;
  active_speakers = active_after_error state.active_speakers e.persona;
  errors =
      with_error state.errors (record { persona = e.persona; message = error_message e.error });
}

unfoldable pub debate_reducer : DebateState → DebateInput → DebateState
unfolding reduce_control reduce_event
debate_reducer state (control input) = reduce_control state input
debate_reducer state (event e) = reduce_event state e

-- The state after a sequence of inputs.
unfoldable pub run : DebateState → List DebateInput → DebateState
run state [] = state
run state (input ∷ inputs) = run (debate_reducer state input) inputs

pub run-append :
    (state : DebateState) (xs ys : List DebateInput) → run state (xs ++ ys) ≡ run (run state xs) ys
unfolding run
run-append state [] ys = refl
run-append state (x ∷ xs) ys = run-append (debate_reducer state x) xs ys
