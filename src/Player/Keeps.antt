-- ===== src/Player/Keeps.antt =====
-- What a step of the scheduler leaves alone: the recording, the flags, the rate and the timer.
use council.Prelude.{◌≡◌, arith}
use council.Player.State.{Cursor, ActiveTurn, Player}
use council.Player.{Delay, finalize_terminal, close_turn, take_error, reveal_step, step}
use council.Player.Cases.{flushed, reveal_cases, step_cases}

-- `q` differs from `p` in its playback schedule and in what it has sent, at most.
pub record SameRecording (p q : Player) : Type 0 where
  pub reduced_motion : q.reduced_motion ≡ p.reduced_motion
  pub draining : q.draining ≡ p.draining
  pub timer : q.timer ≡ p.timer
  pub rate : q.rate ≡ p.rate
  pub text : q.text ≡ p.text
  pub round_complete : q.round_complete ≡ p.round_complete
  pub verdict : q.verdict ≡ p.verdict
  pub session_error : q.session_error ≡ p.session_error
  pub closed : q.closed ≡ p.closed
  pub moderator_round : q.moderator_round ≡ p.moderator_round

pub SameRecording-refl : (p : Player) → SameRecording p p
SameRecording-refl p = ground arith

pub SameRecording-trans :
    (p q r : Player) → SameRecording p q → SameRecording q r → SameRecording p r
SameRecording-trans p q r h k = ground arith

abbrev pub Keeps : Player → Player × Delay → Type 0
Keeps p (q, delay) = SameRecording p q

pub close_turn-SameRecording : (p : Player) (a : ActiveTurn) → SameRecording p (close_turn p a)
unfolding close_turn take_error
close_turn-SameRecording p a = ground arith

pub finalize_terminal-SameRecording : (p : Player) → SameRecording p (finalize_terminal p)
unfolding finalize_terminal
finalize_terminal-SameRecording p = ground arith

reveal_step-Keeps : (p q : Player) (a : ActiveTurn) → SameRecording p q → Keeps p (reveal_step q a)
reveal_step-Keeps p q a h =
    reveal_cases (Keeps p) q a (λ l m. ground arith)
      (λ l m. SameRecording-trans p q (close_turn q a) h (close_turn-SameRecording q a))
      (λ l. ground arith)

-- A step changes nothing that was recorded, and neither the rate, the timer nor the reveal mode.
pub step-Keeps : (p : Player) → Keeps p (step p)
step-Keeps p =
    step_cases (Keeps p) p (λ a e. reveal_step-Keeps p p a (SameRecording-refl p))
      (λ e f. SameRecording-refl p) (λ r i e f h. reveal_step-Keeps p _ _ (ground arith))
      (λ e f b t. SameRecording-refl p)
      (λ e f t.
        let q : Player = flushed (record p { cursor = Cursor.moderator }) in
        (
          λ v s. ground (arith, finalize_terminal-SameRecording q),
          λ v g x. ground arith,
          λ v x g y z. reveal_step-Keeps p _ _ (ground arith),
        ))
