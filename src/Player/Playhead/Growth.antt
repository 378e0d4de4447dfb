-- ===== src/Player/Playhead/Growth.antt =====
-- What the growth of the recording does to the position of the replay.
use council.Prelude.{ℕ, ◌≤◌, ◌<◌, ◌≡◌, sym, ◌∙◌, inl, inr, Bool, true, arith, Text}
use council.Persona.{PersonaId, seat}
use council.Player.Seats.{IsPanelist, IsBefore, seat_of-seat}
use council.Player.State.{ActiveTurn}
use council.Player.Playhead.{AtSeat, TurnAt}

-- The recording grows: no text of a buffered round, and no new word on a round that is buffered.
module _ (heard kept kept' : PersonaId → ℕ → Text) (complete complete' : ℕ → Bool)
    (same_kept : (q : PersonaId) (s : ℕ) → IsPanelist q → complete s ≡ true → kept' q s ≡ kept q s)
    (more : (s : ℕ) → complete s ≡ true → complete' s ≡ true) where
  before_complete :
      (r i : ℕ) (speaking : Bool)
      → AtSeat heard kept complete r i speaking
      → (q : PersonaId) (s : ℕ) → 1 ≤ s
      → IsBefore q s r i
      → complete s ≡ true
  before_complete r i b h q s one (inl lt) = h.passed s one lt
  before_complete r i b h q s one (inr (e, lt)) = rw e (h.within (omega arith))

  pub AtSeat-grows :
      (r i : ℕ) (speaking : Bool)
      → AtSeat heard kept complete r i speaking
      → AtSeat heard kept' complete' r i speaking
  AtSeat-grows r i b h = record {
    seated = h.seated;
    started = h.started;
    passed = λ s one lt. more s (h.passed s one lt);
    within = λ pos. more r (h.within pos);
    played = λ q s w one c.
        h.played q s w one c ∙ sym (same_kept q s w (before_complete r i b h q s one c));
    ahead = h.ahead;
    silent = h.silent;
  }

  pub TurnAt-grows :
      (r i : ℕ) (a : ActiveTurn)
      → i < 4
      → TurnAt heard kept complete r i a
      → TurnAt heard kept' complete' r i a
  TurnAt-grows r i a lt t = record {
    persona = t.persona;
    round = t.round;
    index = t.index;
    panelist = t.panelist;
    text = t.text ∙ sym (same_kept (seat i) r (seat_of-seat i lt).1 t.buffered);
    within = t.within;
    told = t.told;
    buffered = more r t.buffered;
  }
