-- ===== src/Tests/Reducer.antt =====
-- The reducer's theorems at a short debate, live and stopped.
use council.Prelude.{◌≡◌, refl, true, List, [], ◌∷◌, text, capped}
use council.Persona.{skeptic, optimist, moderator}
use council.Protocol.{token, persona_done, round_complete, verdict}
use council.Reducer.{
  WsStatus, DebateInput, event, control, status, transport, cancel, max_cell_chars, initial_state,
  terminal, debate_reducer, run,
}
use council.Reducer.Transcript.{cell, say, said_after, cell-run}
use council.Reducer.Invariant.{IsWellFormed, run-IsWellFormed}
use council.Reducer.Phases.{ended-run}

abbrev live : List DebateInput
live =
    control (status WsStatus.connecting)
    ∷ event (token skeptic 1 (text "Not "))
    ∷ event (token optimist 1 (text "Sure"))
    ∷ event (token skeptic 1 (text "so fast"))
    ∷ event (persona_done skeptic 1)
    ∷ event (round_complete 1)
    ∷ event (token moderator 2 (text "Yes"))
    ∷ event (verdict (text "Yes"))
    ∷ []

cell-run_example :
    cell (run initial_state live) skeptic 1 ≡ capped max_cell_chars (said_after skeptic 1 [] live)
cell-run_example = cell-run skeptic 1 live

-- What the skeptic said is the two deltas in their order.
said_live : said_after skeptic 1 [] live ≡ text "Not so fast"
unfolding said_after say
said_live = refl

run-IsWellFormed_example : IsWellFormed (run initial_state live)
run-IsWellFormed_example = run-IsWellFormed live

abbrev after_stop : List DebateInput
after_stop = event (persona_done optimist 1) ∷ control (transport (text "late")) ∷ []

ended-run_example :
    terminal (run (debate_reducer (run initial_state live) (control cancel)) after_stop).phase
    ≡ true
ended-run_example = ended-run (run initial_state live) (control cancel) after_stop refl refl
