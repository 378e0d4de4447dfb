-- ===== src/Player/Shown.antt =====
-- What the reducer has made of the inputs that the player dispatched.
use council.Prelude.{◌≡◌, List, [], ◌∷◌}
use council.Reducer.{DebateState, DebateInput, initial_state, debate_reducer, run, run-append}
use council.Player.State.{Player, dispatch, dispatch_all}

-- The state on the screen, if the reducer started from its initial state.
unfoldable pub shown : Player → DebateState
shown p = run initial_state p.sent

pub shown-dispatch :
    (p : Player) (input : DebateInput) → shown (dispatch p input) ≡ debate_reducer (shown p) input
unfolding shown run
shown-dispatch p input = run-append initial_state p.sent (input ∷ [])

pub shown-dispatch_all :
    (p : Player) (inputs : List DebateInput) → shown (dispatch_all p inputs) ≡ run (shown p) inputs
unfolding shown
shown-dispatch_all p inputs = run-append initial_state p.sent inputs
