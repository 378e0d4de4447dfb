-- ===== src/Player/Rules.antt =====
-- Rules that carry a fact from one step of the scheduler to its loops: the drain of `skipToLive`
-- and the timer.
use mathlib.Core.Option
use council.Prelude.{ℕ, zero, suc, ◌<◌, ◌≡◌, refl, sym, subst, ◌∙◌, Option, none, some, arith}
use council.Player.State.{Fraction, Player, max_panel_round, get_text}
use council.Player.Keeps.{Keeps, step-Keeps}
use council.Player.Measure.{CostsAtMost, Falls, measure, step-Falls, SameRecording-CostsAtMost}
use council.Player.{Delay, park, done, wait, step, drain, drain_rest, arm, pump, fire}

-- `I` holds where another step is wanted, and `Post` where the scheduler stops.
abbrev pub After : (Player → Type 0) → (Player → Type 0) → Player × Delay → Type 0
After I Post (q, park) = Post q
After I Post (q, done) = Post q
After I Post (q, wait delay) = I q

module _ (I Post : Player → Type 0) (keep : (p : Player) → I p → After I Post (step p)) where
  drain_rest_rule :
      (again : Player → Option Player) (r : Player × Delay) (q : Player)
      → ((p : Player) → I p → again p ≡ some q → Post q)
      → After I Post r
      → drain_rest again r ≡ some q
      → Post q
  unfolding drain_rest
  drain_rest_rule again (p, park) q ih h e = subst Post (Option.some-injective _ _ e) h
  drain_rest_rule again (p, done) q ih h e = subst Post (Option.some-injective _ _ e) h
  drain_rest_rule again (p, wait d) q ih h e = ih p h e

  pub drain_rule : (fuel : ℕ) (p q : Player) → I p → drain fuel p ≡ some q → Post q
  unfolding drain
  drain_rule zero p q h e = cc
  drain_rule (suc fuel) p q h e =
      drain_rest_rule (λ x. drain fuel x) (step p) q (λ x. drain_rule fuel x q) (keep p h) e

-- The timer fires `n` times, with no call in between.
unfoldable pub fires : ℕ → Player → Player
unfolding fire
fires zero p = p
fires (suc n) p = fires n (fire p)

fires-idle : (n : ℕ) (p : Player) → p.timer ≡ none → fires n p ≡ p
unfolding fires
fires-idle zero p e = refl
fires-idle (suc n) p e = rw (fire-idle p e) (fires-idle n p e)
  where
    fire-idle : (p : Player) → p.timer ≡ none → fire p ≡ p
    fire-idle p e = ground arith

pub fire-armed :
    (p : Player) (t : Fraction) → p.timer ≡ some t → fire p ≡ arm (step (record p { timer = none }))
unfolding fire pump
fire-armed p t e = rw (e, fire)

measure-timer :
    (k : ℕ) (p : Player) (t : Option Fraction) → measure k (record p { timer = t }) ≡ measure k p
unfolding measure max_panel_round
measure-timer k p t = refl

module _ (I Post : Player → Type 0) (keep : (p : Player) → I p → After I Post (step p))
    (stable : (p : Player) (t : Option Fraction) → I p → I (record p { timer = t })) (k : ℕ) where
  -- What is left after a step: the timer runs out within `n` further calls.
  abbrev pub Settles : ℕ → Player → Type 0
  Settles n p = Post (fires n p) × ((fires n p).timer ≡ none)

  settled_idle : (n : ℕ) (q : Player) → Post q → q.timer ≡ none → Settles n q
  settled_idle n q h e = rw (fires-idle n q e) (h, e)

  arm-Settles :
      (n : ℕ) (p : Player) (r : Player × Delay)
      → p.timer ≡ none
      → CostsAtMost k p
      → measure k p < suc n
      → ((q : Player)
          → I q
          → q.timer ≡ none
          → CostsAtMost k q
          → measure k q < n
          → Settles n (arm (step q)))
      → After I Post r
      → Falls k (measure k p) r
      → Keeps p r
      → Settles (suc n) (arm r)
  unfolding arm fires get_text measure max_panel_round
  arm-Settles n p (q, park) e c m ih a f s = settled_idle (suc n) q a (s.timer ∙ e)
  arm-Settles n p (q, done) e c m ih a f s = settled_idle (suc n) q a (s.timer ∙ e)
  arm-Settles n p (q, wait d) e c m ih a f s =
      let armed : Player = record q { timer = some d } in
      let next : Player = record q { timer = none } in
      subst (Settles n) (sym (fire-armed armed d refl))
        (ih next (stable q none a) refl (SameRecording-CostsAtMost k p q s c) (omega arith))

  pub settle_rule :
      (n : ℕ) (p : Player)
      → I p
      → p.timer ≡ none
      → CostsAtMost k p
      → measure k p < n
      → Settles n (arm (step p))
  settle_rule zero p h e c m = absurd (omega arith)
  settle_rule (suc n) p h e c m =
      arm-Settles n p (step p) e c m (settle_rule n) (keep p h) (step-Falls k p c) (step-Keeps p)
