-- ===== src/Player/Playhead/Told.antt =====
-- What a token of the active turn does to the position of the replay.
use council.Prelude.{
  ℕ, ◌≤◌, ◌≡◌, ◌≢◌, refl, sym, ap, subst, subst₂, true≢false, ◌∙◌, inl, inr, Bool, true, false,
  ◌++◌, arith, Text, nat_eq_iff, if◌then◌else◌, Bool-cases, length, take, slice, take-append-slice,
  IsPrefix, IsPrefix-take,
}
use council.Persona.{PersonaId, same, same_iff, moderator_id}
use council.Reducer.Transcript.{same_turn, same_turn_eq}
use council.Player.Seats.{IsBefore}
use council.Player.State.{ActiveTurn}
use council.Player.Playhead.{
  IsBefore-irrefl, seat-ne-moderator, AtSeat, TurnAt, Finished, TurnModerator,
}

-- A token of the active turn was dispatched: `told` is what has been heard now.
module _ (heard kept told : PersonaId → ℕ → Text) (complete : ℕ → Bool) (a : ActiveTurn) (end : ℕ)
    (tells : (q : PersonaId) (s : ℕ)
      → told q s ≡ (
          if same_turn a.persona a.round q s
          then heard q s ++ slice a.text a.pos end
          else heard q s))
    (forward : a.pos ≤ end) (inside : end ≤ length a.text) where
  tells_self : told a.persona a.round ≡ heard a.persona a.round ++ slice a.text a.pos end
  tells_self =
      ground
        (arith, tells a.persona a.round, same_iff a.persona a.persona, nat_eq_iff a.round a.round)

  tells_other : (q : PersonaId) (s : ℕ) → (q ≡ a.persona → s ≢ a.round) → told q s ≡ heard q s
  tells_other q s ne = elim (Bool-cases (same_turn a.persona a.round q s)) [
    | inl e ↦
        let (same_q, same_s) = same_turn_eq a.persona q a.round s e in absurd (ne same_q same_s)
    | inr e ↦ tells q s ∙ rw e refl
  ]

  pub reveals :
      (r i : ℕ)
      → AtSeat heard kept complete r i true
      → TurnAt heard kept complete r i a
      → AtSeat told kept complete r i true × TurnAt told kept complete r i (record a { pos = end })
  reveals r i h t = (
    record {
      seated = h.seated;
      started = h.started;
      passed = h.passed;
      within = h.within;
      played = λ q s w one b.
          tells_other q s (λ e f.
            (IsBefore-irrefl i r h.seated
              (subst₂ (λ x y. IsBefore x y r i) (e ∙ t.persona) (f ∙ t.round) b)))
          ∙ h.played q s w one b;
      ahead = λ q s w b o.
          tells_other q s (λ e f. true≢false (o (e ∙ t.persona) (f ∙ t.round))) ∙ h.ahead q s w b o;
      silent = λ s.
          tells_other moderator_id s (λ e f. seat-ne-moderator i h.seated (e ∙ t.persona))
          ∙ h.silent s;
    },
    record {
      persona = t.persona;
      round = t.round;
      index = t.index;
      panelist = t.panelist;
      text = t.text;
      within = inside;
      told =
          rw (← t.persona, ← t.round)
            (tells_self
              ∙ ap (λ x. x ++ slice a.text a.pos end) (rw (← t.persona, ← t.round) at t.told)
              ∙ take-append-slice a.pos end a.text forward);
      buffered = t.buffered;
    },
  )

  pub reveals_moderator :
      TurnModerator heard kept complete a
      → Finished heard kept complete
      → Finished told kept complete × TurnModerator told kept complete (record a { pos = end })
  reveals_moderator t f = (
    λ q s w one all.
        tells_other q s
          (λ e g. true≢false (subst (λ x. same x moderator_id ≡ false) (e ∙ t.persona) w))
        ∙ f q s w one all,
    record {
      persona = t.persona;
      moderates = t.moderates;
      text = t.text;
      within = inside;
      told = rw (← t.persona) (
          tells_self
          ∙ ap (λ x. x ++ slice a.text a.pos end) (rw (← t.persona) at t.told)
          ∙ take-append-slice a.pos end a.text forward);
    },
  )

  -- What has been told stays a prefix of what is recorded.
  pub reveals_prefix :
      heard a.persona a.round ≡ take a.pos a.text
      → a.text ≡ kept a.persona a.round
      → ((q : PersonaId) (s : ℕ) → IsPrefix (heard q s) (kept q s))
      → (q : PersonaId) (s : ℕ) → IsPrefix (told q s) (kept q s)
  reveals_prefix now whole old q s = elim (Bool-cases (same_turn a.persona a.round q s)) [
    | inl e ↦
        let (same_q, same_s) = same_turn_eq a.persona q a.round s e in
        let told_now : told a.persona a.round ≡ take end (kept a.persona a.round) =
          tells_self
          ∙ ap (λ x. x ++ slice a.text a.pos end) now
          ∙ take-append-slice a.pos end a.text forward
          ∙ ap (take end) whole in
        subst₂ (λ x y. IsPrefix (told x y) (kept x y)) (sym same_q) (sym same_s)
          (subst (λ x. IsPrefix x (kept a.persona a.round)) (sym told_now)
            (IsPrefix-take end (kept a.persona a.round)))
    | inr e ↦ subst (λ x. IsPrefix x (kept q s)) (sym (tells q s ∙ rw e refl)) (old q s)
  ]
