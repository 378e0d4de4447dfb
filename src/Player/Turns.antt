-- ===== src/Player/Turns.antt =====
-- The turns of the replay, frontend/src/state/debatePlayer.ts: what is ready, which turn comes next,
-- and one step of the scheduler.
use council.Prelude.{
  ℕ, ℕ-Key, ◌+◌, ◌-◌, Bool, true, false, not, ◌||◌, Option, none, some, [], ◌∷◌, ◌++◌, map, Text,
  ltb, leb, nat_eq, if◌then◌else◌, length, slice,
}
use council.Prelude.Dict
use council.Persona.{PersonaId, PersonaId-Key, panelists, seat, moderator_id}
use council.Protocol.{DebateEvent, token, persona_done, round_complete, verdict}
use council.Reducer.{WsStatus, event, control, status}
use council.Reveal.{next_chunk_end}
use council.Player.State.{
  Fraction, Cursor, panelist, ActiveTurn, Player, dispatch, dispatch_all, tick_ms, turn_gap_ms,
  get_text, max_panel_round,
}

-- What `step` returns: the sentinels PARK (-1) and DONE (-2), or a delay in milliseconds.
pub data Delay : Type 0 where
  park done : Delay
  wait : Fraction → Delay

-- `o !== null` and `o !== undefined`.
abbrev pub present {ℓ} : {A : Type ℓ} → Option A → Bool
present none = false
present (some a) = true

unfoldable pub has_buffered_turn : Player → Cursor → Bool
has_buffered_turn p (panelist round index) = Dict.has round p.round_complete
has_buffered_turn p Cursor.moderator = present p.verdict
has_buffered_turn p Cursor.done = true

unfoldable pub terminal_known : Player → Bool
terminal_known p = present p.verdict || present p.session_error || p.closed

-- `this.cursor.kind === "done"`.
abbrev pub at_end : Cursor → Bool
at_end Cursor.done = true
at_end _ = false

unfoldable pub has_ready_work : Player → Bool
unfolding has_buffered_turn terminal_known
has_ready_work p =
    if present p.active
    then true
    else if at_end p.cursor
    then false
    else if has_buffered_turn p p.cursor
    then true
    else terminal_known p

unfoldable pub is_at_live : Player → Bool
unfolding has_ready_work
is_at_live p = not (has_ready_work p)

unfoldable pub flush_done : Player → Player
flush_done p = elim p.pending_done [
  | none ↦ p
  | some d ↦ record (dispatch p (event (persona_done d.persona d.round))) { pending_done = none }
]

unfoldable pub flush_round : Player → Player
flush_round p = elim p.pending_round_complete [
  | none ↦ p
  | some r ↦ record (dispatch p (event (round_complete r))) { pending_round_complete = none }
]

unfoldable pub flush_errors : Player → Player
flush_errors p = record (dispatch_all p (map (λ e. event (DebateEvent.error e)) p.pending_errors)) {
  pending_errors = [];
}

unfoldable pub flush_pending : Player → Player
unfolding flush_done flush_round flush_errors
flush_pending p = flush_errors (flush_round (flush_done p))

unfoldable pub finalize_terminal : Player → Player
finalize_terminal p = elim p.session_error [
  | some e ↦ dispatch p (event (DebateEvent.error e))
  | none ↦ if p.closed then dispatch p (control (status WsStatus.closed)) else p
]

abbrev pub turn : PersonaId → ℕ → Option ℕ → Text → Bool → ActiveTurn
turn persona round index text is_moderator = record {
  persona = persona;
  round = round;
  index = index;
  text = text;
  pos = 0;
  is_moderator = is_moderator;
}

-- The panelist's branch of `prepareNextTurn`, once its round is buffered.
unfoldable pub open_panelist : Player → ℕ → ℕ → Player
open_panelist p round index = record p {
  active = some (turn (seat index) round (some index) (get_text (seat index) round p) false);
}

-- `this.moderatorRound ?? this.maxPanelRound() + 1`.
unfoldable pub verdict_round : Player → ℕ
unfolding max_panel_round
verdict_round p = elim p.moderator_round [ none ↦ max_panel_round p + 1 | some r ↦ r ]

-- The end of `prepareNextTurn`: the moderator's text, or the verdict at once if there is none.
unfoldable pub open_moderator : Player → Text → Text → Player × Option Delay
open_moderator p v [] =
    (record (dispatch p (event (verdict v))) { cursor = Cursor.done }, some done)
open_moderator p v (c ∷ text) =
    (record p { active = some (turn moderator_id (verdict_round p) none (c ∷ text) true) }, none)

unfoldable pub prepare_moderator : Player → Player × Option Delay
unfolding open_moderator verdict_round
prepare_moderator p = elim p.verdict [
  | none ↦
      if present p.session_error || p.closed
      then (record (finalize_terminal (flush_pending p)) { cursor = Cursor.done }, some done)
      else (p, some park)
  | some v ↦
      let q : Player = flush_pending p in
      open_moderator q v (get_text moderator_id (verdict_round q) q)
]

unfoldable pub prepare_at : Player → Cursor → Player × Option Delay
unfolding prepare_moderator open_panelist
prepare_at p Cursor.done = (p, some done)
prepare_at p Cursor.moderator = prepare_moderator p
prepare_at p (panelist round index) =
    if has_buffered_turn p (panelist round index)
    then (open_panelist (flush_pending p) round index, none)
    else if terminal_known p
    then prepare_moderator (record p { cursor = Cursor.moderator })
    else (p, some park)

unfoldable pub prepare_next_turn : Player → Player × Option Delay
unfolding prepare_at
prepare_next_turn p = prepare_at p p.cursor

abbrev pub last_seat : ℕ
last_seat = length panelists - 1

-- The cursor after a panelist's turn; the index `none` is -1, whose successor is 0.
unfoldable pub next_cursor : ℕ → Option ℕ → Cursor
next_cursor round none = panelist round 0
next_cursor round (some index) =
    if ltb index last_seat then panelist round (index + 1) else panelist (round + 1) 0

-- `a.index === PANELISTS.length - 1`.
abbrev pub is_last : Option ℕ → Bool
is_last none = false
is_last (some index) = nat_eq index last_seat

-- The error recorded for a panelist moves to the pending ones.
unfoldable pub take_error : PersonaId → Player → Player
take_error persona p = elim (Dict.get persona p.persona_errors) [
  | none ↦ p
  | some err ↦ record p {
    pending_errors = p.pending_errors ++ err ∷ [];
    persona_errors = Dict.delete persona p.persona_errors;
  }
]

-- The end of a panelist's turn: its closing inputs wait for the next turn.
unfoldable pub close_turn : Player → ActiveTurn → Player
unfolding take_error
close_turn p a =
    let q : Player =
      take_error a.persona
        (record p { pending_done = some (record { persona = a.persona; round = a.round }) }) in
    record q {
      pending_round_complete = if is_last a.index then some a.round else q.pending_round_complete;
      cursor = next_cursor a.round a.index;
      active = none;
    }

-- `this.verdict ?? ""`.
abbrev pub verdict_or_empty : Option Text → Text
verdict_or_empty none = []
verdict_or_empty (some v) = v

-- The end of the chunk that is revealed next.
unfoldable pub chunk_end : Player → ActiveTurn → ℕ
chunk_end p a =
    if p.reduced_motion || p.draining then length a.text else next_chunk_end a.text a.pos

unfoldable pub reveal_step : Player → ActiveTurn → Player × Delay
unfolding close_turn next_cursor chunk_end
reveal_step p a =
    if leb (length a.text) a.pos
    then (if a.is_moderator
        then (
          record (dispatch p (event (verdict (verdict_or_empty p.verdict)))) {
            active = none;
            cursor = Cursor.done;
          },
          done,
        )
        else (close_turn p a, wait (turn_gap_ms p)))
    else let end : ℕ = chunk_end p a in
      (
        record (dispatch p (event (token a.persona a.round (slice a.text a.pos end)))) {
          active = some (record a { pos = end });
        },
        wait (tick_ms p),
      )

-- The rest of `step` after `prepareNextTurn`, whose `null` means that `active` is set.
unfoldable pub after_prepare : Player × Option Delay → Player × Delay
unfolding reveal_step
after_prepare (q, some delay) = (q, delay)
after_prepare (q, none) = elim q.active [ none ↦ (q, park) | some a ↦ reveal_step q a ]

unfoldable pub step : Player → Player × Delay
unfolding reveal_step after_prepare prepare_next_turn
step p = elim p.active [ none ↦ after_prepare (prepare_next_turn p) | some a ↦ reveal_step p a ]
