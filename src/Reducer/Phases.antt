-- ===== src/Reducer/Phases.antt =====
-- The terminal phases of the reducer: what leads to them and what leaves them.
use council.Prelude.{◌≡◌, Bool, true, false, ◌||◌, List, [], ◌∷◌, arith}
use council.Protocol.{DebateEvent, token, verdict}
use council.Reducer.{
  WsStatus, DebateState, DebateInput, event, control, status, cancel, is_terminal_error, terminal,
  reduce_status, reduce_control, reduce_event, debate_reducer, run,
}

-- A Stop, a closed connection, a verdict, and an error of nobody or of the moderator.
abbrev pub ends : DebateInput → Bool
ends (control cancel) = true
ends (control (status WsStatus.closed)) = true
ends (event (verdict v)) = true
ends (event (DebateEvent.error e)) = is_terminal_error e.persona
ends _ = false

-- A token, and the status of a new connection.
abbrev pub revives : DebateInput → Bool
revives (control (status WsStatus.connecting)) = true
revives (event (token persona round delta)) = true
revives _ = false

abbrev pub some_revives : List DebateInput → Bool
some_revives [] = false
some_revives (input ∷ inputs) = revives input || some_revives inputs

debate_reducer-ends :
    (state : DebateState) (input : DebateInput)
    → ends input ≡ true
    → terminal (debate_reducer state input).phase ≡ true
unfolding debate_reducer reduce_control reduce_status reduce_event
debate_reducer-ends state input h = ground arith

debate_reducer-stays :
    (state : DebateState) (input : DebateInput)
    → terminal state.phase ≡ true
    → revives input ≡ false
    → terminal (debate_reducer state input).phase ≡ true
unfolding debate_reducer reduce_control reduce_status reduce_event
debate_reducer-stays state input t h = ground arith

run-stays :
    (state : DebateState) (inputs : List DebateInput)
    → terminal state.phase ≡ true
    → some_revives inputs ≡ false
    → terminal (run state inputs).phase ≡ true
unfolding run
run-stays state [] t h = t
run-stays state (input ∷ inputs) t h =
    run-stays (debate_reducer state input) inputs
      (debate_reducer-stays state input t (ground arith)) (ground arith)

-- Once a Stop, a closed connection, a verdict or a terminal error came, in whatever state, the phase
-- is terminal for as long as neither a token nor a new connection comes.
pub ended-run :
    (state : DebateState) (input : DebateInput) (inputs : List DebateInput)
    → ends input ≡ true
    → some_revives inputs ≡ false
    → terminal (run (debate_reducer state input) inputs).phase ≡ true
ended-run state input inputs h k =
    run-stays (debate_reducer state input) inputs (debate_reducer-ends state input h) k
