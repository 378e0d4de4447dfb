-- ===== src/Player/Fidelity/Record.antt =====
-- Recording an event, and what an orderly stream is: no token for a round that is complete, no
-- moderator's token after the verdict, and no round completed after the end.
use council.Prelude.{
  ℕ, ℕ-Key, ◌≤◌, ◌≡◌, ◌≢◌, refl, sym, ap, subst, ◌∙◌, inl, inr, Bool, true, false, Option, none,
  some, List, ◌++◌, arith, Text, length, if◌then◌else◌, Bool-cases, IsPrefix, IsPrefix-trans,
  take_all, capped, capped-IsPrefix, length-capped-le, true≢false,
}
use council.Prelude.Dict
use council.Prelude.Dict.{Dict}
use council.Persona.{PersonaId, same, moderator_id}
use council.Protocol.{DebateEvent, ErrorEvent, token, persona_done, round_complete, verdict}
use council.Reducer.{append_delta}
use council.Reducer.Transcript.{same_turn, same_turn_eq, cell_of-append_delta}
use council.Player.State.{
  Cursor, panelist, ActiveTurn, Player, max_turn_chars, get_text, append_text,
}
use council.Player.{present, terminal_known, record_event, record_error}
use council.Player.Heard.{heard, kept, buffered}
use council.Player.Seats.{IsPanelist}
use council.Player.Playhead.{Finished}
use council.Player.Playhead.Growth.{AtSeat-grows, TurnAt-grows}
use council.Player.Fidelity.{Place, IsFaithful}

-- What the backend's stream keeps to.
abbrev pub IsOrderly : Player → DebateEvent → Type 0
IsOrderly p (token q r delta) =
    (IsPanelist q → Dict.has r p.round_complete ≡ false)
    × (same q moderator_id ≡ true → p.verdict ≡ none)
IsOrderly p (round_complete r) = terminal_known p ≡ false
IsOrderly p _ = Unit {0}

module _ (h text text' : PersonaId → ℕ → Text) (complete complete' : ℕ → Bool)
    (over over' judged judged' : Bool)
    (same_text : (q : PersonaId) (s : ℕ) → IsPanelist q → complete s ≡ true → text' q s ≡ text q s)
    (same_moderator : judged ≡ true → (s : ℕ) → text' moderator_id s ≡ text moderator_id s)
    (more : (s : ℕ) → complete s ≡ true → complete' s ≡ true)
    (closing : over ≡ true → (over' ≡ true) × ((s : ℕ) → complete' s ≡ complete s))
    (judging : judged ≡ true → judged' ≡ true) where
  Finished-grows : over ≡ true → Finished h text complete → Finished h text' complete'
  Finished-grows o f q s w one all =
      let all_old : (t : ℕ) → 1 ≤ t → t ≤ s → complete t ≡ true =
        λ t lo hi. sym ((closing o).1 t) ∙ all t lo hi in
      f q s w one all_old ∙ sym (same_text q s w (all_old s one (omega arith)))

  Place-grows :
      (c : Cursor) (o : Option ActiveTurn)
      → Place h text complete over judged c o
      → Place h text' complete' over' judged' c o
  Place-grows (panelist r i) none v =
      AtSeat-grows h text text' complete complete' same_text more r i false v
  Place-grows (panelist r i) (some a) (s, t) = (
    AtSeat-grows h text text' complete complete' same_text more r i true s,
    TurnAt-grows h text text' complete complete' same_text more r i a s.seated t,
  )
  Place-grows Cursor.moderator none (f, o, z) = (Finished-grows o f, (closing o).0, z)
  Place-grows Cursor.moderator (some a) (f, o, j, t) = (
    Finished-grows o f,
    (closing o).0,
    judging j,
    record {
      persona = t.persona;
      moderates = t.moderates;
      text = t.text ∙ sym (same_moderator j a.round);
      within = t.within;
      told = t.told;
    },
  )
  Place-grows Cursor.done none (f, o) = (Finished-grows o f, (closing o).0)
  Place-grows Cursor.done (some a) x = absurd x

-- The player with other flags.
abbrev with_flags : Player → List ℕ → Option Text → Option ErrorEvent → Bool → Player
with_flags p rounds judged failed closed = record p {
  round_complete = rounds;
  verdict = judged;
  session_error = failed;
  closed = closed;
}

-- Recording what adds no text.
pub flags-IsFaithful :
    (p : Player) (rounds : List ℕ) (judged : Option Text) (failed : Option ErrorEvent)
    (closed : Bool)
    → ((s : ℕ) → buffered p s ≡ true → Dict.has s rounds ≡ true)
    → (terminal_known p ≡ true
        → (terminal_known (with_flags p rounds judged failed closed) ≡ true)
          × ((s : ℕ) → Dict.has s rounds ≡ buffered p s))
    → (present p.verdict ≡ true → present judged ≡ true)
    → IsFaithful p
    → IsFaithful (with_flags p rounds judged failed closed)
unfolding heard get_text
flags-IsFaithful p rounds judged failed closed more closing judging v = record {
  bounded = v.bounded;
  prefix = v.prefix;
  place =
      Place-grows (heard p) (kept p) (kept p) (buffered p) (λ s. Dict.has s rounds)
        (terminal_known p) (terminal_known (with_flags p rounds judged failed closed))
        (present p.verdict) (present judged) (λ q s w c. refl) (λ j s. refl) more closing judging
        p.cursor p.active v.place;
}

pub get_text-append_text :
    (q : PersonaId) (r : ℕ) (delta : Text) (p : Player) (x : PersonaId) (s : ℕ)
    → get_text x s (append_text q r delta p) ≡ (
        if same_turn q r x s
        then capped max_turn_chars (get_text x s p ++ delta)
        else get_text x s p)
unfolding get_text append_text append_delta
get_text-append_text q r delta p x s = cell_of-append_delta p.text q r delta x s

-- A text that is recorded further keeps its beginning and its bound.
append_text-grows :
    (q : PersonaId) (r : ℕ) (delta : Text) (p : Player) (x : PersonaId) (s : ℕ)
    → length (get_text x s p) ≤ max_turn_chars
    → (length (get_text x s (append_text q r delta p)) ≤ max_turn_chars)
      × IsPrefix (get_text x s p) (get_text x s (append_text q r delta p))
append_text-grows q r delta p x s h = elim (Bool-cases (same_turn q r x s)) [
  | inl e ↦
      rw (get_text-append_text q r delta p x s, e)
        (
          length-capped-le max_turn_chars (get_text x s p ++ delta),
          capped-IsPrefix max_turn_chars (get_text x s p) delta h,
        )
  | inr e ↦ rw (get_text-append_text q r delta p x s, e) (h, take_all (get_text x s p))
]

other_turn :
    (q x : PersonaId) (r s : ℕ) (delta : Text) (p : Player)
    → (x ≡ q → s ≢ r)
    → get_text x s (append_text q r delta p) ≡ get_text x s p
other_turn q x r s delta p ne = elim (Bool-cases (same_turn q r x s)) [
  | inl e ↦ let (same_q, same_s) = same_turn_eq q x r s e in absurd (ne same_q same_s)
  | inr e ↦ get_text-append_text q r delta p x s ∙ rw e refl
]

append_text-IsFaithful :
    (q : PersonaId) (r : ℕ) (delta : Text) (mr : Option ℕ) (p : Player)
    → IsOrderly p (token q r delta)
    → IsFaithful p
    → IsFaithful (record (append_text q r delta p) { moderator_round = mr })
unfolding heard get_text append_text terminal_known
append_text-IsFaithful q r delta mr p (open_round, no_verdict) v = record {
  bounded = λ x s. (append_text-grows q r delta p x s (v.bounded x s)).0;
  prefix = λ x s.
      IsPrefix-trans (heard p x s) (kept p x s) (kept (append_text q r delta p) x s) (v.prefix x s)
        (append_text-grows q r delta p x s (v.bounded x s)).1;
  place =
      Place-grows (heard p) (kept p) (kept (append_text q r delta p)) (buffered p) (buffered p)
        (terminal_known p) (terminal_known p) (present p.verdict) (present p.verdict)
        (λ x s w c.
          other_turn q x r s delta p
            (λ e f. true≢false (sym c ∙ ap (buffered p) f ∙ open_round (subst IsPanelist e w))))
        (λ j s. other_turn q moderator_id r s delta p (λ e f.
          true≢false
            (sym j ∙ ap present (no_verdict (subst (λ x. same x moderator_id ≡ true) e refl)))))
        (λ s c. c) (λ o. (o, λ s. refl)) (λ j. j) p.cursor p.active v.place;
}

failed-IsFaithful :
    (e : ErrorEvent) (p : Player) → IsFaithful p → IsFaithful (record p { session_error = some e })
unfolding terminal_known
failed-IsFaithful e p v =
    flags-IsFaithful p p.round_complete p.verdict (some e) p.closed (λ s h. h)
      (λ t. (ground arith, λ s. refl)) (λ j. j) v

record_error-IsFaithful :
    (e : ErrorEvent) (o : Option PersonaId) (p : Player)
    → IsFaithful p
    → IsFaithful (record_error e o p)
unfolding record_error heard get_text terminal_known
record_error-IsFaithful e none p v = failed-IsFaithful e p v
record_error-IsFaithful e (some q) p v = elim (Bool-cases (same q moderator_id)) [
  | inl h ↦ rw h (failed-IsFaithful e p v)
  | inr h ↦ rw h v
]

pub closed-IsFaithful : (p : Player) → IsFaithful p → IsFaithful (record p { closed = true })
unfolding terminal_known
closed-IsFaithful p v =
    flags-IsFaithful p p.round_complete p.verdict p.session_error true (λ s h. h)
      (λ t. (ground arith, λ s. refl)) (λ j. j) v

-- Recording an event of an orderly stream keeps playback faithful to the recording.
pub record_event-IsFaithful :
    (e : DebateEvent) (p : Player) → IsOrderly p e → IsFaithful p → IsFaithful (record_event e p)
unfolding record_event append_text terminal_known
record_event-IsFaithful (token q r delta) p o v = elim (Bool-cases (same q moderator_id)) [
  | inl e ↦ rw e (append_text-IsFaithful q r delta (some r) p o v)
  | inr e ↦ rw e (append_text-IsFaithful q r delta p.moderator_round p o v)
]
record_event-IsFaithful (persona_done q r) p o v = v
record_event-IsFaithful (round_complete r) p o v =
    flags-IsFaithful p (Dict.add r p.round_complete) p.verdict p.session_error p.closed
      (λ s h. ground (arith, Dict.has-add s r p.round_complete))
      (λ t. absurd (true≢false (sym t ∙ o))) (λ j. j) v
record_event-IsFaithful (verdict w) p o v =
    flags-IsFaithful p p.round_complete (some w) p.session_error p.closed (λ s h. h)
      (λ t. (refl, λ s. refl)) (λ j. refl) v
record_event-IsFaithful (DebateEvent.error e) p o v = record_error-IsFaithful e e.persona p v
