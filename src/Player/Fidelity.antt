-- ===== src/Player/Fidelity.antt =====
-- The recorded texts and the replayed ones: the invariant of a session.
pub mod Step
pub mod Record
use council.Prelude.{
  ℕ, ℕ-Key, ◌≤◌, ◌<◌, ◌+◌, ◌≡◌, refl, sym, ap, subst, subst₂, ◌∙◌, ◌⊎◌, inl, inr, Bool, true, false,
  Option, none, some, List, [], ◌∷◌, ◌++◌, arith, Text, if◌then◌else◌, length, take, slice,
  IsPrefix, IsPrefix-take, true≢false, ltb, ltb→lt, Bool-cases,
}
use council.Prelude.Dict
use council.Persona.{PersonaId, seat, moderator_id}
use council.Protocol.{token, verdict}
use council.Reducer.{DebateInput, event}
use council.Reducer.Transcript.{same_turn, say}
use council.Reveal.Laws.{next_chunk_end_bounds}
use council.Player.State.{Cursor, panelist, ActiveTurn, Player, max_turn_chars, dispatch, get_text}
use council.Player.{
  Delay, park, done, wait, present, turn, terminal_known, verdict_round, verdict_or_empty,
  chunk_end, last_seat, next_cursor, close_turn, reveal_step, step, finalize_terminal,
}
use council.Player.Cases.{flushed, closed_turn, close_turn_lem, reveal_cases, step_cases}
use council.Player.Heard.{
  heard, kept, buffered, heard-dispatch, heard-IsSilent, heard-flushed, heard-finalize_terminal,
}
use council.Player.Keeps.{finalize_terminal-SameRecording}
use council.Player.Seats.{IsNext, IsNext-beside, IsNext-round}
use council.Player.Playhead.{AtSeat, TurnAt, Finished, TurnModerator, opens, moderates, closes}
use council.Player.Playhead.Told.{reveals, reveals_moderator, reveals_prefix}

module _ (told text : PersonaId → ℕ → Text) (complete : ℕ → Bool) (over judged : Bool) where
  -- What holds at each cursor, with and without a turn under way.
  abbrev pub Place : Cursor → Option ActiveTurn → Type 0
  Place (panelist r i) none = AtSeat told text complete r i false
  Place (panelist r i) (some a) =
      AtSeat told text complete r i true × TurnAt told text complete r i a
  Place Cursor.moderator none =
      Finished told text complete × (over ≡ true) × ((s : ℕ) → told moderator_id s ≡ [])
  Place Cursor.moderator (some a) =
      Finished told text complete
      × (over ≡ true)
      × (judged ≡ true)
      × TurnModerator told text complete a
  Place Cursor.done none = Finished told text complete × (over ≡ true)
  Place Cursor.done (some a) = ⊥

  pub record IsSound (c : Cursor) (o : Option ActiveTurn) : Type 0 where
    pub bounded : (q : PersonaId) (s : ℕ) → length (text q s) ≤ max_turn_chars
    pub prefix : (q : PersonaId) (s : ℕ) → IsPrefix (told q s) (text q s)
    pub place : Place c o

abbrev pub IsFaithful : Player → Type 0
IsFaithful p =
    IsSound (heard p) (kept p) (buffered p) (terminal_known p) (present p.verdict) p.cursor p.active

-- The same with other words for what was told.
pub told-IsSound :
    (h h' text : PersonaId → ℕ → Text) (complete : ℕ → Bool) (over judged : Bool) (c : Cursor)
    (o : Option ActiveTurn)
    → h' ≡ h
    → IsSound h text complete over judged c o
    → IsSound h' text complete over judged c o
told-IsSound h h' text complete over judged c o e v =
    subst (λ x. IsSound x text complete over judged c o) (sym e) v

next_cursor-Place :
    (h text : PersonaId → ℕ → Text) (complete : ℕ → Bool) (over judged : Bool) (r i : ℕ)
    (a : ActiveTurn)
    → AtSeat h text complete r i true
    → TurnAt h text complete r i a
    → length a.text ≤ a.pos
    → Place h text complete over judged (next_cursor a.round a.index) none
unfolding next_cursor
next_cursor-Place h text complete over judged r i a s t e =
    rw (t.round, t.index)
      (elim (Bool-cases (ltb i last_seat)) [
        | inl lt ↦ rw lt (
            closes h text complete r i r (i + 1) a s t e
              (IsNext-beside r i (ltb→lt i last_seat lt)))
        | inr ge ↦
            let last : i ≡ 3 = ground (arith, s.seated) in
            rw ge (
              closes h text complete r i (r + 1) 0 a s t e
                (subst (λ x. IsNext r x (r + 1) 0) (sym last) (IsNext-round r)))
      ])

module _ (h text : PersonaId → ℕ → Text) (complete : ℕ → Bool) (over judged : Bool)
    (a : ActiveTurn) where
  -- A turn that is not the moderator's is that of the seat at the cursor.
  panelist-Place :
      (c : Cursor)
      → a.is_moderator ≡ false
      → Place h text complete over judged c (some a)
      → (r : ℕ) × (i : ℕ) × (c ≡ panelist r i)
        × AtSeat h text complete r i true
        × TurnAt h text complete r i a
  panelist-Place (panelist r i) m (s, t) = (r, i, refl, s, t)
  panelist-Place Cursor.moderator m (f, o, j, t) = absurd (true≢false (sym t.moderates ∙ m))
  panelist-Place Cursor.done m x = absurd x

  -- The moderator's turn ends in the verdict.
  moderator-Place :
      (c : Cursor)
      → a.is_moderator ≡ true
      → Place h text complete over judged c (some a)
      → Finished h text complete × (over ≡ true)
  moderator-Place (panelist r i) m (s, t) = absurd (true≢false (sym m ∙ t.panelist))
  moderator-Place Cursor.moderator m (f, o, j, t) = (f, o)
  moderator-Place Cursor.done m x = absurd x

-- The place of a turn under way.
active-Place :
    (p : Player) (a : ActiveTurn)
    → p.active ≡ some a
    → IsFaithful p
    → Place (heard p) (kept p) (buffered p) (terminal_known p) (present p.verdict) p.cursor (some a)
active-Place p a e v =
    subst
      (λ o. Place (heard p) (kept p) (buffered p) (terminal_known p) (present p.verdict) p.cursor o)
      e v.place

closed_turn-IsFaithful :
    (p : Player) (a : ActiveTurn)
    → p.active ≡ some a
    → a.is_moderator ≡ false
    → length a.text ≤ a.pos
    → IsFaithful p
    → IsFaithful (closed_turn p a)
unfolding heard get_text terminal_known
closed_turn-IsFaithful p a e m l v =
    let (r, i, c, s, t) =
      panelist-Place (heard p) (kept p) (buffered p) (terminal_known p) (present p.verdict) a
        p.cursor m (active-Place p a e v) in
    record {
      bounded = v.bounded;
      prefix = v.prefix;
      place =
          next_cursor-Place (heard p) (kept p) (buffered p) (terminal_known p) (present p.verdict) r
            i a s t l;
    }

ended-IsFaithful :
    (p : Player) (a : ActiveTurn) (v : Text)
    → p.active ≡ some a
    → a.is_moderator ≡ true
    → IsFaithful p
    → IsFaithful (record (dispatch p (event (verdict v))) { active = none; cursor = Cursor.done })
unfolding heard get_text terminal_known
ended-IsFaithful p a v e m f =
    told-IsSound (heard p) _ (kept p) (buffered p) (terminal_known p) (present p.verdict)
      Cursor.done none (heard-IsSilent p (event (verdict v)) tt)
      (record {
        bounded = f.bounded;
        prefix = f.prefix;
        place =
            moderator-Place (heard p) (kept p) (buffered p) (terminal_known p) (present p.verdict) a
              p.cursor m (active-Place p a e f);
      })

chunk_end_bounds :
    (p : Player) (a : ActiveTurn)
    → a.pos < length a.text
    → (a.pos ≤ chunk_end p a) × (chunk_end p a ≤ length a.text)
unfolding chunk_end
chunk_end_bounds p a l = ground (arith, next_chunk_end_bounds a.text a.pos l)

-- The turn under way tells its own text, from where it stands.
turn_told :
    (h text : PersonaId → ℕ → Text) (complete : ℕ → Bool) (over judged : Bool) (a : ActiveTurn)
    (c : Cursor)
    → Place h text complete over judged c (some a)
    → (h a.persona a.round ≡ take a.pos a.text) × (a.text ≡ text a.persona a.round)
turn_told h text complete over judged a (panelist r i) (s, t) = (
  subst₂ (λ x y. h x y ≡ take a.pos a.text) (sym t.persona) (sym t.round) t.told,
  subst₂ (λ x y. a.text ≡ text x y) (sym t.persona) (sym t.round) t.text,
)
turn_told h text complete over judged a Cursor.moderator (f, o, j, t) = (
  subst (λ x. h x a.round ≡ take a.pos a.text) (sym t.persona) t.told,
  subst (λ x. a.text ≡ text x a.round) (sym t.persona) t.text,
)
turn_told h text complete over judged a Cursor.done x = absurd x

module _ (h text h' : PersonaId → ℕ → Text) (complete : ℕ → Bool) (over judged : Bool)
    (a : ActiveTurn) (end : ℕ)
    (tells : (q : PersonaId) (s : ℕ)
      → h' q s
        ≡ (if same_turn a.persona a.round q s then h q s ++ slice a.text a.pos end else h q s))
    (forward : a.pos ≤ end) (inside : end ≤ length a.text) where
  token-Place :
      (c : Cursor)
      → Place h text complete over judged c (some a)
      → Place h' text complete over judged c (some (record a { pos = end }))
  token-Place (panelist r i) (s, t) = reveals h text h' complete a end tells forward inside r i s t
  token-Place Cursor.moderator (f, o, j, t) =
      let (f', t') = reveals_moderator h text h' complete a end tells forward inside t f in
      (f', o, j, t')
  token-Place Cursor.done x = absurd x

  token-IsSound :
      (c : Cursor)
      → IsSound h text complete over judged c (some a)
      → IsSound h' text complete over judged c (some (record a { pos = end }))
  token-IsSound c v =
      let (now, whole) = turn_told h text complete over judged a c v.place in
      record {
        bounded = v.bounded;
        prefix = reveals_prefix h text h' complete a end tells forward inside now whole v.prefix;
        place = token-Place c v.place;
      }

token-IsFaithful :
    (p : Player) (a : ActiveTurn)
    → p.active ≡ some a
    → a.pos < length a.text
    → IsFaithful p
    → IsFaithful
        (record (dispatch p
          (event (token a.persona a.round (slice a.text a.pos (chunk_end p a))))) {
            active = some (record a { pos = chunk_end p a });
          })
unfolding heard get_text terminal_known say
token-IsFaithful p a e l v =
    let input : DebateInput =
      event (token a.persona a.round (slice a.text a.pos (chunk_end p a))) in
    let (forward, inside) = chunk_end_bounds p a l in
    token-IsSound (heard p) (kept p) (heard (dispatch p input)) (buffered p) (terminal_known p)
      (present p.verdict) a (chunk_end p a) (λ q s. heard-dispatch p input q s) forward inside
      p.cursor
      (subst
        (λ o.
          IsSound (heard p) (kept p) (buffered p) (terminal_known p) (present p.verdict) p.cursor o)
        e v)

pub reveal_step-IsFaithful :
    (p : Player) (a : ActiveTurn)
    → p.active ≡ some a
    → IsFaithful p
    → IsFaithful (reveal_step p a).0
reveal_step-IsFaithful p a e v =
    reveal_cases (λ r. IsFaithful r.0) p a
      (λ l m. ended-IsFaithful p a (verdict_or_empty p.verdict) e m v)
      (λ l m. subst IsFaithful (sym (close_turn_lem p a)) (closed_turn-IsFaithful p a e m l v))
      (λ l. token-IsFaithful p a e l v)
