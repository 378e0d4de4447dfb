-- ===== src/Player/Live.antt =====
-- What `isAtLive` reports when a step of the scheduler stops.
use council.Prelude.{◌≡◌, refl, true, false, none, arith, ◌∙◌}
use council.Player.State.{Cursor, ActiveTurn, Player}
use council.Player.{
  Delay, park, done, wait, has_buffered_turn, terminal_known, is_at_live, finalize_terminal,
  reveal_step, step,
}
use council.Player.Cases.{flushed, reveal_cases, step_cases}

-- A step that returns PARK or DONE leaves the player with nothing to do.
abbrev pub StopsLive : Player × Delay → Type 0
StopsLive (p, park) = is_at_live p ≡ true
StopsLive (p, done) = is_at_live p ≡ true
StopsLive (p, wait delay) = Unit {0}

ended-is_at_live : (p : Player) → p.active ≡ none → p.cursor ≡ Cursor.done → is_at_live p ≡ true
unfolding is_at_live
ended-is_at_live p e f = ground arith

parked-is_at_live :
    (p : Player)
    → p.active ≡ none
    → has_buffered_turn p p.cursor ≡ false
    → terminal_known p ≡ false
    → is_at_live p ≡ true
unfolding is_at_live has_buffered_turn terminal_known
parked-is_at_live p e b t = ground arith

finalize_terminal-active : (p : Player) → (finalize_terminal p).active ≡ p.active
unfolding finalize_terminal
finalize_terminal-active p = ground arith

reveal_step-StopsLive : (p : Player) (a : ActiveTurn) → StopsLive (reveal_step p a)
reveal_step-StopsLive p a =
    reveal_cases StopsLive p a (λ h m. ended-is_at_live _ refl refl) (λ h m. tt) (λ h. tt)

-- When a step returns PARK or DONE, `isAtLive` holds: nothing is left to play for now.
pub step-StopsLive : (p : Player) → StopsLive (step p)
step-StopsLive p =
    step_cases StopsLive p (λ a e. reveal_step-StopsLive p a) (λ e f. ended-is_at_live p e f)
      (λ r i e f h. reveal_step-StopsLive _ _) (λ e f b t. parked-is_at_live p e b t)
      (λ e f t. (
        λ v s.
            ended-is_at_live _
              (finalize_terminal-active (flushed (record p { cursor = Cursor.moderator })) ∙ e)
              refl,
        λ v g x. ended-is_at_live _ e refl,
        λ v x g y z. reveal_step-StopsLive _ _,
      ))
