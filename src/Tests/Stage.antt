-- ===== src/Tests/Stage.antt =====
-- The stage's theorems at a debate in its first round and at a finished one.
use council.Prelude.{◌≡◌, ◌<◌, refl, true, false, [], ◌∷◌, text}
use council.Prelude.Dict
use council.Persona.{skeptic, optimist}
use council.Protocol.{token, verdict}
use council.Reducer.{
  WsStatus, DebateState, event, control, status, initial_state, run, debate_reducer, reduce_event,
  reduce_control, reduce_status, with_active, append_delta,
}
use council.Stage.Robot.{robot_of, status_of, panelist_status, has_spoken_in}
use council.Stage.Animation.{targets_for, targets_for-brightest}

abbrev opening_state : DebateState
opening_state =
    run initial_state
      (control (status WsStatus.connecting) ∷ event (token skeptic 1 (text "Not so fast")) ∷ [])

abbrev final_state : DebateState
final_state = run opening_state (event (verdict (text "Yes")) ∷ [])

-- The speaker's targets against a silent panelist's.
targets_for-brightest_example :
    ((robot_of opening_state skeptic).dimmed ≡ false)
    × ((targets_for (robot_of opening_state optimist) true).emissive
        < (targets_for (robot_of opening_state skeptic) true).emissive)
    × ((targets_for (robot_of opening_state optimist) true).light
        < (targets_for (robot_of opening_state skeptic) true).light)
unfolding run debate_reducer reduce_event reduce_control reduce_status with_active Dict.has robot_of
    status_of panelist_status has_spoken_in Dict.get append_delta Dict.set
targets_for-brightest_example = targets_for-brightest opening_state skeptic optimist true refl refl
