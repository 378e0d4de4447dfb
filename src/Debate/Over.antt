-- ===== src/Debate/Over.antt =====
-- A session that is over stays over until the next question.
use council.Prelude.{
  ◌≡◌, refl, sym, ap, ◌∙◌, subst, ◌⊎◌, inl, inr, Bool, true, false, Option, none, some, List, [],
  ◌∷◌, Text, if◌then◌else◌, true≢false,
}
use council.Protocol.Ask.{AskMessage, BuildAskResult, refused, built, build_ask}
use council.Protocol.Parse.{ParseResult}
use council.Reducer.{
  WsStatus, DebatePhase, DebateState, control, cancel, status, terminal, debate_reducer,
  reduce_control, reduce_status,
}
use council.Player.State.{Fraction, Player, new_player, dispatch, reset}
use council.Player.State
use council.Player.{feed_status, feed_transport, fire, skip_to_live}
use council.Player.Shown.{shown, shown-dispatch}
use council.Player.Settled.{is_live, IsPlaying}
use council.Player.Over.{skip-IsPlaying, spent-skip}
use council.Client.{Delivery}
use council.Debate.{Debate, DebateStep, debate_step, debate_run, new_debate, reached, state_of}
use council.Debate.Link.{Council, arrives, nothing, link_step, arrive}
use council.Debate.Seen.{seen, seen_step, is_current}
use council.Debate.Asked.{convened_lem, convened}
use council.Debate.Stop.{reset-skips, reset-fires}
use council.Debate.Wired.{IsWired}
use council.Debate.Refines.{debate_step-Simulates, debate_run-IsWired, new-IsWired}
use council.Debate.Lawful.{IsLawful, sent-ended, fire-IsLawful, told, told-IsLawful, arrive-told}

-- A council either replays a session, or has no link and nothing to play.
abbrev pub IsHeld : Council → Type 0
IsHeld c = IsPlaying c.player ⊎ ((c.link ≡ none) × (reset c.player ≡ c.player))

lawful-ended :
    (f : Player → Player) (p : Player)
    → IsLawful f
    → IsPlaying p
    → is_live (shown p) ≡ false
    → is_live (shown (f p)) ≡ false
lawful-ended f p l h n = elim h.over [
  | inl e ↦ absurd (true≢false (sym e ∙ n))
  | inr s ↦ l.ended p s n
]

skip-ended :
    (p q : Player)
    → skip_to_live p ≡ some q
    → IsPlaying p
    → is_live (shown p) ≡ false
    → is_live (shown q) ≡ false
skip-ended p q e h n = elim h.over [
  | inl l ↦ absurd (true≢false (sym l ∙ n))
  | inr s ↦ sent-ended p q (spent-skip p q e s) n
]

convened-IsHeld : (b : BuildAskResult) (c : Council) → IsHeld (convened b c)
unfolding reset feed_transport feed_status debate_reducer reduce_control reduce_status
convened-IsHeld (refused e) c = inr (refl, refl)
convened-IsHeld (built m) c = inl (record {
  mild_pending = tt;
  mild_recorded = tt;
  over =
      inl (
        ap is_live
          (shown-dispatch (reset (reset c.player)) (control (status WsStatus.connecting))));
})

cancel-ended :
    (s : DebateState) → is_live s ≡ false → is_live (debate_reducer s (control cancel)) ≡ false
unfolding debate_reducer reduce_control
cancel-ended s n =
    elim (terminal s.phase)
      as (λ b.
        is_live (if b then s else record s { phase = DebatePhase.stopped; active_speakers = [] })
        ≡ false) [ true ↦ n | false ↦ refl ]

-- A step other than a question.
abbrev pub IsUnasked : DebateStep → Type 0
IsUnasked (DebateStep.asks question rounds) = ⊥
IsUnasked _ = Unit {0}

abbrev pub AllUnasked : List DebateStep → Type 0
AllUnasked [] = Unit {0}
AllUnasked (s ∷ ss) = IsUnasked s × AllUnasked ss

-- A step that is held, and ends as over as it began.
abbrev HeldOver : Council → Council → Type 0
HeldOver c e = IsHeld e × (is_live (shown c.player) ≡ false → is_live (shown e.player) ≡ false)

module _ (parse : Text → ParseResult) (stringify : AskMessage → Text) where
  lives-HeldOver :
      (c : Council)
      → IsHeld c
      → HeldOver c (elim (skip_to_live c.player) [ none ↦ c | some p ↦ record c { player = p } ])
  lives-HeldOver c (inr (l, r)) =
      let k : skip_to_live c.player ≡ some c.player =
        subst (λ p. skip_to_live p ≡ some p) r (reset-skips c.player) in
      subst (λ o. HeldOver c (elim o [ none ↦ c | some p ↦ record c { player = p } ])) (sym k)
        (inr (l, r), λ n. n)
  lives-HeldOver c (inl h) = skipped (skip_to_live c.player) refl
    where
      skipped :
          (o : Option Player)
          → skip_to_live c.player ≡ o
          → HeldOver c (elim o [ none ↦ c | some p ↦ record c { player = p } ])
      skipped none e = (inl h, λ n. n)
      skipped (some q) e = (inl (skip-IsPlaying c.player q e h), skip-ended c.player q e h)

  fires-HeldOver : (c : Council) → IsHeld c → HeldOver c (record c { player = fire c.player })
  fires-HeldOver c (inl h) =
      (inl (fire-IsLawful.keeps c.player h), lawful-ended fire c.player fire-IsLawful h)
  fires-HeldOver c (inr (l, r)) =
      let k : fire c.player ≡ c.player = subst (λ p. fire p ≡ p) r (reset-fires c.player) in
      subst (λ p. HeldOver c (record c { player = p })) (sym k) (inr (l, r), λ n. n)

  arrives-HeldOver :
      (ev : Delivery) (c : Council) (b : Bool)
      → IsHeld c
      → HeldOver c (link_step parse (if b then arrives ev else nothing) c)
  unfolding link_step
  arrives-HeldOver ev c false h = (h, λ n. n)
  arrives-HeldOver ev c true (inr (l, r)) =
      subst (λ o. HeldOver c (elim o [ none ↦ c | some m ↦ arrive parse ev c ])) (sym l)
        (inr (l, r), λ n. n)
  arrives-HeldOver ev c true (inl h) =
      elim c.link as (λ o. HeldOver c (elim o [ none ↦ c | some m ↦ arrive parse ev c ])) [
        | none ↦ (inl h, λ n. n)
        | some m ↦ (
          inl (
              subst IsPlaying (sym (arrive-told parse ev c))
                ((told-IsLawful parse ev).keeps c.player h)),
          λ n.
              ap (λ p. is_live (shown p)) (arrive-told parse ev c)
              ∙ lawful-ended (told parse ev) c.player (told-IsLawful parse ev) h n,
        )
      ]

  unasked-HeldOver :
      (s : DebateStep) (d : Debate) (c : Council)
      → IsUnasked s
      → IsHeld c
      → HeldOver c (link_step parse (seen_step d s) c)
  unfolding link_step seen_step reset State.set_rate shown
  unasked-HeldOver (DebateStep.asks _ _) d c u h = elim u [ ]
  unasked-HeldOver DebateStep.stops d c u h = (
    inr (refl, refl),
    λ n.
        ap is_live (shown-dispatch (reset c.player) (control cancel))
        ∙ cancel-ended (shown c.player) n,
  )
  unasked-HeldOver DebateStep.lives d c u h = lives-HeldOver c h
  unasked-HeldOver DebateStep.fires d c u h = fires-HeldOver c h
  unasked-HeldOver (DebateStep.rates multiplier) d c u (inl h) = (
    inl (record { mild_pending = h.mild_pending; mild_recorded = h.mild_recorded; over = h.over }),
    λ n. n,
  )
  unasked-HeldOver (DebateStep.rates multiplier) d c u (inr (l, r)) =
      (inr (l, ap (State.set_rate multiplier) r), λ n. n)
  unasked-HeldOver (DebateStep.delivers k i ev) d c u h = arrives-HeldOver ev c (is_current k i d) h

  step-IsHeld :
      (s : DebateStep) (d : Debate) (c : Council)
      → IsHeld c
      → IsHeld (link_step parse (seen_step d s) c)
  unfolding link_step seen_step
  step-IsHeld (DebateStep.asks question rounds) d c h =
      subst IsHeld (sym (convened_lem question rounds c))
        (convened-IsHeld (build_ask question rounds) c)
  step-IsHeld DebateStep.stops d c h = (unasked-HeldOver DebateStep.stops d c tt h).0
  step-IsHeld DebateStep.lives d c h = (unasked-HeldOver DebateStep.lives d c tt h).0
  step-IsHeld DebateStep.fires d c h = (unasked-HeldOver DebateStep.fires d c tt h).0
  step-IsHeld (DebateStep.rates m) d c h = (unasked-HeldOver (DebateStep.rates m) d c tt h).0
  step-IsHeld (DebateStep.delivers k i ev) d c h =
      (unasked-HeldOver (DebateStep.delivers k i ev) d c tt h).0

  -- One step of the hook: it is held, and unless it asks it makes no session live.
  pub debate_step-IsHeld :
      (s : DebateStep) (d : Debate)
      → IsWired d
      → IsHeld (seen d)
      → IsHeld (seen (debate_step parse stringify s d))
  debate_step-IsHeld s d w h =
      subst IsHeld (sym (debate_step-Simulates parse stringify s d w).0)
        (step-IsHeld s d (seen d) h)

  pub debate_step-over :
      (s : DebateStep) (d : Debate)
      → IsUnasked s
      → IsWired d
      → IsHeld (seen d)
      → is_live (state_of d) ≡ false
      → is_live (state_of (debate_step parse stringify s d)) ≡ false
  unfolding seen
  debate_step-over s d u w h n =
      ap (λ c. is_live (shown c.player)) (debate_step-Simulates parse stringify s d w).0
      ∙ (unasked-HeldOver s d (seen d) u h).1 n

  debate_run-IsHeld :
      (ss : List DebateStep) (d : Debate)
      → IsWired d
      → IsHeld (seen d)
      → IsHeld (seen (debate_run parse stringify ss d))
  unfolding debate_run
  debate_run-IsHeld [] d w h = h
  debate_run-IsHeld (s ∷ ss) d w h =
      debate_run-IsHeld ss (debate_step parse stringify s d)
        (debate_step-Simulates parse stringify s d w).1 (debate_step-IsHeld s d w h)

  run-over :
      (ss : List DebateStep) (d : Debate)
      → AllUnasked ss
      → IsWired d
      → IsHeld (seen d)
      → is_live (state_of d) ≡ false
      → is_live (state_of (debate_run parse stringify ss d)) ≡ false
  unfolding debate_run seen
  run-over [] d u w h n = n
  run-over (s ∷ ss) d (u, us) w h n =
      run-over ss (debate_step parse stringify s d) us
        (debate_step-Simulates parse stringify s d w).1 (debate_step-IsHeld s d w h)
        (debate_step-over s d u w h n)

  -- A session that is over stays over: from any state that the hook can reach in which the phase is
  -- not connecting, debating or moderating, no stop, timer, control of the playback or delivery of the
  -- browser to any socket makes it one of these again, in whatever order the events come; only a new
  -- question does.
  pub reached-stays_over :
      (reduced_motion : Bool) (ss later : List DebateStep)
      → AllUnasked later
      → is_live (state_of (reached parse stringify reduced_motion ss)) ≡ false
      → is_live
          (state_of (debate_run parse stringify later (reached parse stringify reduced_motion ss)))
        ≡ false
  unfolding seen reset
  reached-stays_over reduced_motion ss later u n =
      let d : Debate = new_debate reduced_motion in
      let w : IsWired d = new-IsWired reduced_motion in
      run-over later (reached parse stringify reduced_motion ss) u
        (debate_run-IsWired parse stringify ss d w) (debate_run-IsHeld ss d w (inr (refl, refl))) n
