-- ===== src/Player.antt =====
-- The paced player between the socket and the reducer, frontend/src/state/debatePlayer.ts: the
-- inbound calls and the timer. Its fields and recording helpers are in `Player.State`, and its turns
-- in `Player.Turns`.
pub mod State
mod Turns
pub mod Cases
pub mod Keeps
pub mod Live
pub mod Measure
pub mod Drain
pub mod Shown
pub mod Rules
pub mod Ending
pub mod Playhead
pub mod Heard
pub mod Fidelity
pub mod Session
pub mod Screen
pub mod Recording
pub mod Rates
pub mod Seats
pub mod Roster
pub mod Solo
pub mod Speaker
pub mod Mild
pub mod Settled
pub mod Over
pub mod Informed
pub mod Told
use council.Prelude.{
  ℕ, ℕ-Key, suc, zero, ◌+◌, ◌-◌, ◌*◌, ◌<◌, Bool, true, false, not, ◌||◌, ◌&&◌, Option, none, some,
  List, [], ◌∷◌, ◌++◌, map, Text, capped, ltb, leb, nat_eq, if◌then◌else◌, length, slice,
}
unfoldable pub use Turns.*
use mathlib.Core.Option
use council.Prelude.Dict
use council.Persona.{PersonaId, PersonaId-Key, same, panelists, seat, moderator_id}
use council.Protocol.{DebateEvent, ErrorEvent, token, persona_done, round_complete, verdict}
use council.Reducer.{WsStatus, DebateInput, event, control, status, transport}
use council.Reveal.{next_chunk_end}
use State.{
  Fraction, Cursor, panelist, ActiveTurn, Player, dispatch, dispatch_all, reset, tick_ms,
  turn_gap_ms, append_text, get_text, max_panel_round,
}

-- `pump` arms the timer for the delay that `step` returned, or stays idle.
unfoldable pub arm : Player × Delay → Player
arm (p, park) = p
arm (p, done) = p
arm (p, wait delay) = record p { timer = some delay }

unfoldable pub pump : Player → Player
unfolding step arm
pump p = elim p.timer [ some t ↦ p | none ↦ arm (step p) ]

-- The armed timer's callback; a cleared timer does not fire.
unfoldable pub fire : Player → Player
unfolding pump
fire p = elim p.timer [ none ↦ p | some t ↦ pump (record p { timer = none }) ]

-- Recording one event, the `switch` of `feed`.
unfoldable pub record_error : ErrorEvent → Option PersonaId → Player → Player
record_error e none p = record p { session_error = some e }
record_error e (some persona) p =
    if same persona moderator_id
    then record p { session_error = some e }
    else record p { persona_errors = Dict.set persona e p.persona_errors }

unfoldable pub record_event : DebateEvent → Player → Player
unfolding record_error append_text
record_event (token persona round delta) p =
    let q : Player = append_text persona round delta p in
    if same persona moderator_id then record q { moderator_round = some round } else q
record_event (persona_done persona round) p = p
record_event (round_complete round) p = record p {
  round_complete = Dict.add round p.round_complete;
}
record_event (verdict v) p = record p { verdict = some v }
record_event (DebateEvent.error e) p = record_error e e.persona p

unfoldable pub feed : DebateEvent → Player → Player
unfolding record_event pump
feed e p = pump (record_event e p)

unfoldable pub feed_status : WsStatus → Player → Player
unfolding pump reset
feed_status WsStatus.connecting p = dispatch (reset p) (control (status WsStatus.connecting))
feed_status WsStatus.closed p = pump (record p { closed = true })
feed_status w p = dispatch p (control (status w))

unfoldable pub feed_transport : Text → Player → Player
feed_transport message p = dispatch p (control (transport message))

-- The loop of `skipToLive` on fuel; `none` means that the fuel ran out.
unfoldable pub drain_rest : (Player → Option Player) → Player × Delay → Option Player
drain_rest again (p, park) = some p
drain_rest again (p, done) = some p
drain_rest again (p, wait delay) = again p

unfoldable pub drain : ℕ → Player → Option Player
unfolding step drain_rest
drain zero p = none
drain (suc fuel) p = drain_rest (λ q. drain fuel q) (step p)

-- A bound on the steps of a drain: a drained turn takes one chunk and its end.
unfoldable pub drain_fuel : Player → ℕ
drain_fuel p = 10 * (max_panel_round p + 2) + 20

abbrev pub restore : Player → Player
restore p = record p { draining = false }

-- `skipToLive`; the `finally` block restores `draining`.
unfoldable pub skip_to_live : Player → Option Player
unfolding drain drain_fuel
skip_to_live p =
    let q : Player = record p { timer = none; draining = true } in
    Option.map restore (drain (drain_fuel p) q)
