-- ===== src/Player/Playhead.antt =====
-- Where playback stands, seen from the texts alone: `heard` has been dispatched and `kept` is
-- recorded for a persona and a round, and `complete` tells the rounds that are buffered.
pub mod Told
pub mod Growth
use council.Prelude.{
  ℕ, ◌≤◌, ◌<◌, ◌≡◌, ◌≢◌, refl, sym, ap, subst, subst₂, true≢false, ◌∙◌, inl, inr, Bool, true, false,
  some, [], ◌++◌, arith, Text, nat_eq_iff, ltb, ltb→lt, if◌then◌else◌, Bool-cases, length, take,
  slice, take-append-slice, take-of_length_le, IsPrefix, IsPrefix-take,
}
use council.Persona.{PersonaId, same, same_iff, seat, moderator_id}
use council.Reducer.Transcript.{same_turn, same_turn_eq}
use council.Player.Seats.{IsPanelist, IsBefore, IsNext, seat_of-seat, lt-or-eq}
use council.Player.State.{ActiveTurn}
use council.Player.{turn}

-- All rounds up to `s` are buffered.
abbrev pub AllComplete : (ℕ → Bool) → ℕ → Type 0
AllComplete complete s = (t : ℕ) → 1 ≤ t → t ≤ s → complete t ≡ true

-- No turn is before itself.
IsBefore-irrefl : (i r : ℕ) → i < 4 → ¬ IsBefore (seat i) r r i
IsBefore-irrefl i r h b = ground (arith, (seat_of-seat i h).0)

seat-ne-moderator : (i : ℕ) → i < 4 → moderator_id ≢ seat i
seat-ne-moderator i h e =
    true≢false (subst (λ q. same q moderator_id ≡ false) (sym e) (seat_of-seat i h).1)

module _ (heard kept : PersonaId → ℕ → Text) (complete : ℕ → Bool) where
  -- Seat `i` of round `r` is next, or speaks if `speaking`: the turns before have been heard in
  -- full, and nothing has been heard of those after.
  pub record AtSeat (r i : ℕ) (speaking : Bool) : Type 0 where
    pub seated : i < 4
    pub started : 1 ≤ r
    pub passed : (s : ℕ) → 1 ≤ s → s < r → complete s ≡ true
    pub within : 0 < i → complete r ≡ true
    pub played :
        (q : PersonaId) (s : ℕ) → IsPanelist q → 1 ≤ s → IsBefore q s r i → heard q s ≡ kept q s
    pub ahead :
        (q : PersonaId) (s : ℕ)
        → IsPanelist q
        → ¬ IsBefore q s r i
        → (q ≡ seat i → s ≡ r → speaking ≡ false)
        → heard q s ≡ []
    pub silent : (s : ℕ) → heard moderator_id s ≡ []

  -- The turn of seat `i` in round `r` is under way.
  pub record TurnAt (r i : ℕ) (a : ActiveTurn) : Type 0 where
    pub persona : a.persona ≡ seat i
    pub round : a.round ≡ r
    pub index : a.index ≡ some i
    pub panelist : a.is_moderator ≡ false
    pub text : a.text ≡ kept (seat i) r
    pub within : a.pos ≤ length a.text
    pub told : heard (seat i) r ≡ take a.pos a.text
    pub buffered : complete r ≡ true

  -- The panelists are done: every round that is buffered with all before it was heard in full.
  abbrev pub Finished : Type 0
  Finished =
      (q : PersonaId) (s : ℕ) → IsPanelist q → 1 ≤ s → AllComplete complete s → heard q s ≡ kept q s

  -- The moderator's turn is under way.
  pub record TurnModerator (a : ActiveTurn) : Type 0 where
    pub persona : a.persona ≡ moderator_id
    pub moderates : a.is_moderator ≡ true
    pub text : a.text ≡ kept moderator_id a.round
    pub within : a.pos ≤ length a.text
    pub told : heard moderator_id a.round ≡ take a.pos a.text

  pub opens :
      (r i : ℕ)
      → AtSeat r i false
      → complete r ≡ true
      → AtSeat r i true × TurnAt r i (turn (seat i) r (some i) (kept (seat i) r) false)
  opens r i h c = (
    record {
      seated = h.seated;
      started = h.started;
      passed = h.passed;
      within = h.within;
      played = h.played;
      ahead = λ q s w b o. h.ahead q s w b (λ e f. refl);
      silent = h.silent;
    },
    record {
      persona = refl;
      round = refl;
      index = refl;
      panelist = refl;
      text = refl;
      within = omega arith;
      told =
          h.ahead (seat i) r (seat_of-seat i h.seated).1 (IsBefore-irrefl i r h.seated)
            (λ e f. refl);
      buffered = c;
    },
  )

  pub moderates : (r i : ℕ) → AtSeat r i false → complete r ≡ false → Finished
  moderates r i h c q s w one all = h.played q s w one (inl (before r s h.started c all))
    where
      before : (r s : ℕ) → 1 ≤ r → complete r ≡ false → AllComplete complete s → s < r
      before r s one c all = elim (Bool-cases (ltb s r)) [
        | inl lt ↦ ltb→lt s r lt
        | inr ge ↦ absurd (ground (arith, all r one))
      ]

  -- After the last chunk of a turn the next seat is up.
  pub closes :
      (r i r' i' : ℕ) (a : ActiveTurn)
      → AtSeat r i true
      → TurnAt r i a
      → length a.text ≤ a.pos
      → IsNext r i r' i'
      → AtSeat r' i' false
  closes r i r' i' a h t e n = record {
    seated = n.seated;
    started = omega (arith, n.later, h.started);
    passed = λ s one lt. elim (lt-or-eq s r (omega (arith, n.soon))) [
      | inl old ↦ h.passed s one old
      | inr same_s ↦ rw same_s t.buffered
    ];
    within = λ pos. subst (λ x. complete x ≡ true) (sym (n.resumes pos)) t.buffered;
    played = λ q s w one b. elim (n.back q s w b) [
      | inl old ↦ h.played q s w one old
      | inr (same_q, same_s) ↦
          rw (same_q, same_s) (t.told ∙ take-of_length_le a.pos a.text e ∙ t.text)
    ];
    ahead =
        λ q s w b o. h.ahead q s w (λ c. b (n.on q s w c)) (λ c d. absurd (b (rw (c, d) n.self)));
    silent = h.silent;
  }
