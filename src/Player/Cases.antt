-- ===== src/Player/Cases.antt =====
-- The scheduler's step as a case rule: what holds on each of its branches holds of its result.
use council.Prelude.{
  ◌≢◌, ℕ, ℕ-Key, ◌≤◌, ◌<◌, ◌≡◌, refl, ap, subst, sym, ◌⊎◌, inl, inr, true, false, ◌||◌, Option,
  none, some, List, [], ◌∷◌, ◌++◌, map, append-nil, append_assoc, arith, Text, length, slice, leb,
  if◌then◌else◌, Bool-cases, Option-cases,
}
use council.Prelude.Dict
use council.Persona.{PersonaId, PersonaId-Key, seat, moderator_id}
use council.Protocol.{ErrorEvent, DebateEvent, token, persona_done, round_complete, verdict}
use council.Reducer.{DebateInput, event}
use council.Player.State.{
  Cursor, panelist, ActiveTurn, Player, PendingDone, dispatch, get_text, tick_ms, turn_gap_ms,
}
use council.Player.{
  Delay, park, done, wait, present, terminal_known, flush_pending, flush_done, flush_round,
  flush_errors, finalize_terminal, open_panelist, open_moderator, prepare_moderator, prepare_at,
  prepare_next_turn, verdict_round, verdict_or_empty, turn, close_turn, take_error, is_last,
  next_cursor, chunk_end, reveal_step, after_prepare, step, has_buffered_turn,
}

abbrev pub done_inputs : Option PendingDone → List DebateInput
done_inputs none = []
done_inputs (some d) = event (persona_done d.persona d.round) ∷ []

abbrev pub round_inputs : Option ℕ → List DebateInput
round_inputs none = []
round_inputs (some r) = event (round_complete r) ∷ []

-- What `flushPending` dispatches, in order.
abbrev pub pending_inputs : Player → List DebateInput
pending_inputs p =
    done_inputs p.pending_done
    ++ (round_inputs p.pending_round_complete
        ++ map (λ e. event (DebateEvent.error e)) p.pending_errors)

-- The player after `flushPending`.
abbrev pub flushed : Player → Player
flushed p = record p {
  sent = p.sent ++ pending_inputs p;
  pending_done = none;
  pending_round_complete = none;
  pending_errors = [];
}

flush_done_lem :
    (p : Player)
    → flush_done p ≡ record p { sent = p.sent ++ done_inputs p.pending_done; pending_done = none }
unfolding flush_done
flush_done_lem p = ground (arith, append-nil p.sent)

flush_round_lem :
    (p : Player)
    → flush_round p ≡ record p {
      sent = p.sent ++ round_inputs p.pending_round_complete;
      pending_round_complete = none;
    }
unfolding flush_round
flush_round_lem p = ground (arith, append-nil p.sent)

pub flush_pending_lem : (p : Player) → flush_pending p ≡ flushed p
unfolding flush_pending flush_errors
flush_pending_lem p = rw (flush_done_lem p, flush_round_lem) (simp append_assoc)

-- The branches of `revealStep`.
pub reveal_cases {ℓ} :
    (P : Player × Delay → Type ℓ) (p : Player) (a : ActiveTurn)
    → (length a.text ≤ a.pos
        → a.is_moderator ≡ true
        → P (
          record (dispatch p (event (verdict (verdict_or_empty p.verdict)))) {
            active = none;
            cursor = Cursor.done;
          },
          done,
        ))
    → (length a.text ≤ a.pos → a.is_moderator ≡ false → P (close_turn p a, wait (turn_gap_ms p)))
    → (a.pos < length a.text
        → P (
          record (dispatch p
              (event (token a.persona a.round (slice a.text a.pos (chunk_end p a))))) {
                active = some (record a { pos = chunk_end p a });
              },
          wait (tick_ms p),
        ))
    → P (reveal_step p a)
unfolding reveal_step
reveal_cases P p a ended closes shows = elim (Bool-cases (leb (length a.text) a.pos)) [
  | inl e ↦ elim (Bool-cases a.is_moderator) [
    | inl m ↦ rw (e, m) (ended (ground arith) m)
    | inr m ↦ rw (e, m) (closes (ground arith) m)
  ]
  | inr e ↦ rw e (shows (ground arith))
]

-- The moderator's branch of `prepareNextTurn`, with the cursor moved there.
module _ {ℓ} (P : Player × Delay → Type ℓ) (p : Player) where
  abbrev pub ModeratorCases : Type ℓ
  ModeratorCases =
      (p.verdict ≡ none
        → (present p.session_error || p.closed) ≡ true
        → P (record (finalize_terminal (flushed p)) { cursor = Cursor.done }, done))
      × ((v : Text)
          → p.verdict ≡ some v
          → get_text moderator_id (verdict_round p) p ≡ []
          → P (record (dispatch (flushed p) (event (verdict v))) { cursor = Cursor.done }, done))
      × ((v : Text) (t : Text)
          → p.verdict ≡ some v
          → get_text moderator_id (verdict_round p) p ≡ t
          → t ≢ []
          → let a : ActiveTurn = turn moderator_id (verdict_round p) none t true in
            P (reveal_step (record (flushed p) { active = some a }) a))

  open_moderator_cases :
      (v t : Text)
      → p.verdict ≡ some v
      → get_text moderator_id (verdict_round p) p ≡ t
      → ModeratorCases
      → P (after_prepare (open_moderator (flushed p) v t))
  unfolding after_prepare open_moderator verdict_round
  open_moderator_cases v [] e f (c0, c1, c2) = c1 v e f
  open_moderator_cases v (c ∷ t) e f (c0, c1, c2) = c2 v (c ∷ t) e f (λ h. cc)

  prepare_moderator_cases :
      ((present p.session_error || p.closed) ≡ false → p.verdict ≡ none → P (p, park))
      → ModeratorCases
      → P (after_prepare (prepare_moderator p))
  unfolding prepare_moderator after_prepare verdict_round get_text
  prepare_moderator_cases parks cs = elim (Option-cases p.verdict) [
    | inl e ↦ elim (Bool-cases (present p.session_error || p.closed)) [
      | inl h ↦ rw (e, prepare_moderator, h, flush_pending_lem p) (cs.0 e h)
      | inr h ↦ rw (e, prepare_moderator, h) (parks h e)
    ]
    | inr (v, e) ↦
        rw (e, prepare_moderator, flush_pending_lem p) (open_moderator_cases v _ e refl cs)
  ]

-- The branches of `step`. On the way to the moderator the cursor may have moved there just now.
pub step_cases {ℓ} :
    (P : Player × Delay → Type ℓ) (p : Player)
    → ((a : ActiveTurn) → p.active ≡ some a → P (reveal_step p a))
    → (p.active ≡ none → p.cursor ≡ Cursor.done → P (p, done))
    → ((r i : ℕ)
        → p.active ≡ none
        → p.cursor ≡ panelist r i
        → Dict.has r p.round_complete ≡ true
        → let a : ActiveTurn = turn (seat i) r (some i) (get_text (seat i) r p) false in
          P (reveal_step (record (flushed p) { active = some a }) a))
    → (p.active ≡ none
        → p.cursor ≢ Cursor.done
        → has_buffered_turn p p.cursor ≡ false
        → terminal_known p ≡ false
        → P (p, park))
    → (p.active ≡ none
        → (p.cursor ≡ Cursor.moderator)
          ⊎ ((r : ℕ) × (i : ℕ) × (p.cursor ≡ panelist r i) × (Dict.has r p.round_complete ≡ false))
        → terminal_known p ≡ true
        → ModeratorCases P (record p { cursor = Cursor.moderator }))
    → P (step p)
unfolding step prepare_next_turn prepare_at has_buffered_turn open_panelist after_prepare
    terminal_known get_text
step_cases P p active ended plays parks moderates = elim (Option-cases p.active) [
  | inr (a, e) ↦ rw (e, step) (active a e)
  | inl e ↦ rw (e, step) (at e p.cursor refl)
]
  where
    at : p.active ≡ none → (c : Cursor) → p.cursor ≡ c → P (after_prepare (prepare_at p c))
    at e Cursor.done f = ended e f
    at e Cursor.moderator f = elim (Bool-cases (terminal_known p)) [
      | inl t ↦
          prepare_moderator_cases P p (λ h v. absurd (ground arith))
            (subst (ModeratorCases P) (sym (ap (λ c. record p { cursor = c }) f))
              (moderates e (inl f) t))
      | inr t ↦
          prepare_moderator_cases P p
            (λ h v.
              parks e (λ d. cc) (subst (λ c. has_buffered_turn p c ≡ false) (sym f) (rw v refl)) t)
            (
              λ v h. absurd (ground arith),
              λ v e' x. absurd (ground arith),
              λ v x e' y z. absurd (ground arith),
            )
    ]
    at e (panelist r i) f = elim (Bool-cases (Dict.has r p.round_complete)) [
      | inl h ↦ rw (h, flush_pending_lem p) (plays r i e f h)
      | inr h ↦ rw h (elim (Bool-cases (terminal_known p)) [
        | inl t ↦ rw t (
            prepare_moderator_cases P (record p { cursor = Cursor.moderator })
              (λ x v. absurd (ground arith)) (moderates e (inr (r, i, f, h)) t))
        | inr t ↦ rw t (parks e (λ d. cc) (subst (λ c. has_buffered_turn p c ≡ false) (sym f) h) t)
      ])
    ]

-- The errors that are pending, and those that are still recorded, after a panelist's turn.
abbrev pub errors_pending : PersonaId → Player → List ErrorEvent
errors_pending persona p = elim (Dict.get persona p.persona_errors) [
  | none ↦ p.pending_errors
  | some err ↦ p.pending_errors ++ err ∷ []
]

abbrev pub errors_left : PersonaId → Player → Dict.Dict PersonaId ErrorEvent
errors_left persona p = elim (Dict.get persona p.persona_errors) [
  | none ↦ p.persona_errors
  | some err ↦ Dict.delete persona p.persona_errors
]

-- The player after a panelist's turn.
abbrev pub closed_turn : Player → ActiveTurn → Player
closed_turn p a = record p {
  pending_done = some (record { persona = a.persona; round = a.round });
  pending_errors = errors_pending a.persona p;
  persona_errors = errors_left a.persona p;
  pending_round_complete = if is_last a.index then some a.round else p.pending_round_complete;
  cursor = next_cursor a.round a.index;
  active = none;
}

pub close_turn_lem : (p : Player) (a : ActiveTurn) → close_turn p a ≡ closed_turn p a
unfolding close_turn take_error
close_turn_lem p a = ground arith
