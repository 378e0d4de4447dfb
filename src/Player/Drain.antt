-- ===== src/Player/Drain.antt =====
-- The loop of `skipToLive` and the fuel it needs.
use mathlib.Core.Option
use council.Prelude.{
  ℕ, zero, suc, ◌<◌, ◌≡◌, refl, sym, ◌∙◌, ap, true, false, Option, none, some, arith,
}
use council.Player.State.{Player}
use council.Player.{
  Delay, park, done, wait, step, drain, drain_rest, drain_fuel, skip_to_live, restore, is_at_live,
}
use council.Player.Keeps.{SameRecording, SameRecording-trans, Keeps, step-Keeps}
use council.Player.Rules.{After, drain_rule}
use council.Player.Live.{StopsLive, step-StopsLive}
use council.Player.Measure.{
  is_fast, measure, CostsAtMost, SameRecording-CostsAtMost, CostsAtMost-fast, measure_fast, Falls,
  step-Falls,
}

-- What a drain with `fuel` steps must give, with its last player at live.
abbrev DrainsTo : Player → Option Player → Type 0
DrainsTo p r = (q : Player) × (r ≡ some q) × (is_at_live q ≡ true) × SameRecording p q

drain_step :
    (k fuel : ℕ) (p : Player) (r : Player × Delay)
    → ((q : Player) → CostsAtMost k q → measure k q < fuel → DrainsTo q (drain fuel q))
    → CostsAtMost k p
    → measure k p < suc fuel
    → Falls k (measure k p) r
    → StopsLive r
    → Keeps p r
    → DrainsTo p (drain_rest (λ q. drain fuel q) r)
unfolding drain_rest
drain_step k fuel p (q, park) ih c m f l s = (q, refl, l, s)
drain_step k fuel p (q, done) ih c m f l s = (q, refl, l, s)
drain_step k fuel p (q, wait d) ih c m f l s =
    let (q', e, live, s') = ih q (SameRecording-CostsAtMost k p q s c) (omega arith) in
    (q', e, live, SameRecording-trans p q q' s s')

pub drain_total :
    (k fuel : ℕ) (p : Player) → CostsAtMost k p → measure k p < fuel → DrainsTo p (drain fuel p)
unfolding drain
drain_total k zero p c m = absurd (omega arith)
drain_total k (suc fuel) p c m =
    drain_step k fuel p (step p) (λ q. drain_total k fuel q) c m (step-Falls k p c)
      (step-StopsLive p) (step-Keeps p)

-- `skipToLive` always returns: playback has then caught up with the recording, which it has not
-- changed, no timer is armed, and the paced mode is back.
pub skip_to_live_total :
    (p : Player)
    → (q : Player) × (skip_to_live p ≡ some q)
      × (is_at_live q ≡ true)
      × (q.timer ≡ none)
      × (q.draining ≡ false)
      × (q.text ≡ p.text)
      × (q.round_complete ≡ p.round_complete)
      × (q.verdict ≡ p.verdict)
unfolding skip_to_live drain_fuel is_at_live
skip_to_live_total p =
    let start : Player = record p { timer = none; draining = true } in
    let fast : is_fast start ≡ true = ground arith in
    let (q, e, live, same) =
      drain_total 2 (drain_fuel start) start (CostsAtMost-fast start fast)
        (measure_fast start fast) in
    (
      record q { draining = false },
      rw e refl,
      live,
      same.timer,
      refl,
      same.text,
      same.round_complete,
      same.verdict,
    )

-- What was recorded is there when `skipToLive` returns.
pub skip_to_live-recorded :
    (p q : Player)
    → skip_to_live p ≡ some q
    → (q.text ≡ p.text) × (q.round_complete ≡ p.round_complete)
skip_to_live-recorded p q e =
    let (r, ret, live, timer, draining, text, rounds, judged) = skip_to_live_total p in
    let same : r ≡ q = Option.some-injective _ _ (sym ret ∙ e) in
    (ap (λ x. x.text) (sym same) ∙ text, ap (λ x. x.round_complete) (sym same) ∙ rounds)

-- A fact that the steps carry to the end of a drain holds when `skipToLive` returns.
pub skip_rule :
    (I Post : Player → Type 0)
    → ((p : Player) → I p → After I Post (step p))
    → (p : Player) → I (record p { timer = none; draining = true })
    → (q : Player) × (skip_to_live p ≡ some (restore q)) × Post q
unfolding skip_to_live drain_fuel
skip_rule I Post keep p h =
    let start : Player = record p { timer = none; draining = true } in
    let fast : is_fast start ≡ true = ground arith in
    let (q, e, live, same) =
      drain_total 2 (drain_fuel start) start (CostsAtMost-fast start fast)
        (measure_fast start fast) in
    (q, rw e refl, drain_rule I Post keep (drain_fuel start) start q h e)
