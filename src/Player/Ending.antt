-- ===== src/Player/Ending.antt =====
-- The end of playback once the verdict is recorded, also where the socket has closed or an error
-- was recorded meanwhile.
use mathlib.Core.Option
use council.Prelude.{
  ℕ, suc, ◌<◌, ◌≡◌, ◌≢◌, refl, ap, ◌++◌, [], ◌∷◌, subst, sym, ◌∙◌, Option, none, some, arith, Text,
}
use council.Protocol.{verdict}
use council.Reducer.{DebatePhase, debate_reducer, run, initial_state, event}
use council.Player.State.{Fraction, Cursor, ActiveTurn, Player, max_panel_round, get_text}
use council.Player.{
  next_cursor, take_error, close_turn, reveal_step, step, skip_to_live, restore, terminal_known,
}
use council.Player.Cases.{flushed, pending_inputs, reveal_cases, step_cases}
use council.Player.Keeps.{close_turn-SameRecording}
use council.Player.Measure.{CostsAtMost, measure}
use council.Player.Drain.{skip_rule}
use council.Player.Shown.{shown, shown-dispatch}
use council.Player.Rules.{After, Settles, settle_rule, fires, fire-armed}

-- A verdict that is still to be shown.
pub record Awaits (v : Text) (p : Player) : Type 0 where
  pub recorded : p.verdict ≡ some v
  pub unfinished : p.cursor ≢ Cursor.done

-- The verdict is on the screen, and the debate is over.
pub record Delivered (v : Text) (p : Player) : Type 0 where
  pub phase : (shown p).phase ≡ DebatePhase.done
  pub verdict : (shown p).verdict ≡ v
  pub ended : p.cursor ≡ Cursor.done

-- The last input was the verdict.
verdict-Delivered :
    (v : Text) (p q : Player)
    → q.sent ≡ p.sent ++ event (verdict v) ∷ []
    → q.cursor ≡ Cursor.done
    → Delivered v q
unfolding debate_reducer shown
verdict-Delivered v p q e c =
    let s : shown q ≡ debate_reducer (shown p) (event (verdict v)) =
      ap (run initial_state) e ∙ shown-dispatch p (event (verdict v)) in
    record { phase = ap (λ u. u.phase) s; verdict = ap (λ u. u.verdict) s; ended = c }

next_cursor-ne-done : (r : ℕ) (i : Option ℕ) → next_cursor r i ≢ Cursor.done
unfolding next_cursor
next_cursor-ne-done r none = λ e. cc
next_cursor-ne-done r (some i) = ground arith

close_turn-Awaits :
    (v : Text) (p : Player) (a : ActiveTurn) → p.verdict ≡ some v → Awaits v (close_turn p a)
unfolding close_turn take_error
close_turn-Awaits v p a e = record {
  recorded = (close_turn-SameRecording p a).verdict ∙ e;
  unfinished = next_cursor-ne-done a.round a.index;
}

reveal_step-Awaits :
    (v : Text) (p : Player) (a : ActiveTurn)
    → Awaits v p
    → After (Awaits v) (Delivered v) (reveal_step p a)
reveal_step-Awaits v p a w =
    reveal_cases (After (Awaits v) (Delivered v)) p a
      (λ h m. verdict-Delivered v p _ (rw w.recorded refl) refl)
      (λ h m. close_turn-Awaits v p a w.recorded)
      (λ h. record { recorded = w.recorded; unfinished = w.unfinished })

-- While a verdict waits, a step that stops has delivered it.
step-Awaits : (v : Text) (p : Player) → Awaits v p → After (Awaits v) (Delivered v) (step p)
unfolding terminal_known
step-Awaits v p w =
    step_cases (After (Awaits v) (Delivered v)) p (λ a e. reveal_step-Awaits v p a w)
      (λ e f. absurd (w.unfinished f))
      (λ r i e f h.
        reveal_step-Awaits v _ _ (record { recorded = w.recorded; unfinished = w.unfinished }))
      (λ e f b t. absurd (ground arith))
      (λ e f t. (
        λ n s. absurd (cc),
        λ v' g x.
            verdict-Delivered v (flushed (record p { cursor = Cursor.moderator })) _
              (ap (λ t. p.sent ++ pending_inputs p ++ event (verdict t) ∷ [])
                (Option.some-injective _ _ (sym g ∙ w.recorded)))
              refl,
        λ v' x g y z.
            reveal_step-Awaits v _ _ (record { recorded = w.recorded; unfinished = λ h. cc }),
      ))

-- If a verdict is recorded and playback has not ended, then "go to live" returns and the screen
-- shows that verdict in the phase "done", whatever else was recorded.
pub skip_to_live-Delivered :
    (v : Text) (p : Player)
    → p.verdict ≡ some v
    → p.cursor ≢ Cursor.done
    → (q : Player) × (skip_to_live p ≡ some q) × Delivered v q
unfolding shown
skip_to_live-Delivered v p e f =
    let (q, ret, d) =
      skip_rule (Awaits v) (Delivered v) (step-Awaits v) p
        (record { recorded = e; unfinished = f }) in
    (restore q, ret, record { phase = d.phase; verdict = d.verdict; ended = d.ended })

CostsAtMost-timer :
    (k : ℕ) (p : Player) → CostsAtMost k p → CostsAtMost k (record p { timer = none })
unfolding get_text
CostsAtMost-timer k p c q s = c q s

-- With the timer armed and a verdict recorded, playback that is left alone ends: after enough
-- firings no timer is armed, and the screen shows the verdict in the phase "done". Enough is any
-- number above the measure of the player, whose recorded texts take at most `k` chunks each.
pub fires-Delivered :
    (k n : ℕ) (v : Text) (t : Fraction) (p : Player)
    → p.timer ≡ some t
    → p.verdict ≡ some v
    → p.cursor ≢ Cursor.done
    → CostsAtMost k p
    → measure k p < n
    → Delivered v (fires (suc n) p) × ((fires (suc n) p).timer ≡ none)
unfolding fires measure max_panel_round
fires-Delivered k n v t p armed e f c m =
    let idle : Player = record p { timer = none } in
    subst
      (Settles (Awaits v) (Delivered v) (step-Awaits v)
        (λ q u w. record { recorded = w.recorded; unfinished = w.unfinished }) k n)
      (sym (fire-armed p t armed))
      (settle_rule (Awaits v) (Delivered v) (step-Awaits v)
        (λ q u w. record { recorded = w.recorded; unfinished = w.unfinished }) k n idle
        (record { recorded = e; unfinished = f }) refl (CostsAtMost-timer k p c) m)
