-- ===== src/Stage/Robot.antt =====
-- One visual state for each persona, frontend/src/three/robotVisualState.ts.
use council.Prelude.{
  ℕ, ℕ-Key, Bool, true, false, not, ◌&&◌, none, some, List, [], map, if◌then◌else◌,
}
use council.Prelude.Dict
use council.Persona.{PersonaId, PersonaId-Key, same, persona_ids, moderator_id}
use council.Reducer.{DebatePhase, DebateState}

pub data RobotStatus : Type 0 where
  idle thinking talking done : RobotStatus

pub record RobotVisualState : Type 0 where
  pub id : PersonaId
  pub status : RobotStatus
  pub speaking : Bool
  pub dimmed : Bool
  pub round : ℕ

-- `VERDICT_PHASES.has(phase)`.
abbrev pub verdict_phases : DebatePhase → Bool
verdict_phases DebatePhase.moderating = true
verdict_phases DebatePhase.done = true
verdict_phases _ = false

unfoldable pub has_spoken_in : DebateState → PersonaId → ℕ → Bool
has_spoken_in state id round = elim (Dict.get id state.transcript) [
  | none ↦ false
  | some rounds ↦ elim (Dict.get round rounds) [ none ↦ false | some t ↦ true ]
]

unfoldable pub has_spoken_ever : DebateState → PersonaId → Bool
has_spoken_ever state id = elim (Dict.get id state.transcript) [
  | none ↦ false
  | some rounds ↦ elim rounds [ [] ↦ false | _ ↦ true ]
]

-- `activeSpeakers` counts in the phase "debating" only.
unfoldable pub panelist_status : DebateState → PersonaId → RobotStatus
panelist_status state id = elim state.phase [
  | DebatePhase.idle ↦ RobotStatus.idle
  | DebatePhase.connecting ↦ RobotStatus.idle
  | DebatePhase.debating ↦
      if Dict.has id state.active_speakers
      then RobotStatus.talking
      else if has_spoken_in state id state.current_round
      then RobotStatus.done
      else RobotStatus.thinking
  | _ ↦ if has_spoken_ever state id then RobotStatus.done else RobotStatus.idle
]

unfoldable pub moderator_status : DebateState → RobotStatus
moderator_status state = elim state.phase [
  | DebatePhase.moderating ↦ RobotStatus.talking
  | DebatePhase.done ↦ RobotStatus.done
  | DebatePhase.stopped ↦
      if has_spoken_ever state moderator_id then RobotStatus.done else RobotStatus.idle
  | DebatePhase.error ↦
      if has_spoken_ever state moderator_id then RobotStatus.done else RobotStatus.idle
  | _ ↦ RobotStatus.idle
]

-- `status === "talking"`.
abbrev pub is_talking : RobotStatus → Bool
is_talking RobotStatus.talking = true
is_talking _ = false

unfoldable pub status_of : DebateState → PersonaId → RobotStatus
unfolding panelist_status moderator_status
status_of state id =
    if same id moderator_id then moderator_status state else panelist_status state id

-- The function that `robotVisualState` maps over the ids.
unfoldable pub robot_of : DebateState → PersonaId → RobotVisualState
unfolding status_of
robot_of state id = record {
  id = id;
  status = status_of state id;
  speaking = is_talking (status_of state id);
  dimmed = verdict_phases state.phase && not (same id moderator_id);
  round = state.current_round;
}

unfoldable pub robot_visual_state : DebateState → List RobotVisualState
unfolding robot_of
robot_visual_state state = map (robot_of state) persona_ids
