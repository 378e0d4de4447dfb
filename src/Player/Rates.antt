-- ===== src/Player/Rates.antt =====
-- The playback speed and the delays that it gives.
use council.Prelude.{◌*◌, ◌≤◌, ◌<◌, arith}
use council.Player.State.{Fraction, Player, set_rate, tick_ms, turn_gap_ms}

-- After any call of `setRate` with a number that is not negative, a word is shown every 75 to 600
-- milliseconds and the gap between turns is 137.5 to 1100, so no delay is zero or negative.
pub set_rate-delays :
    (m : Fraction) (p : Player)
    → 0 < m.den
    → (0 < (tick_ms (set_rate m p)).den)
      × (75 * (tick_ms (set_rate m p)).den ≤ (tick_ms (set_rate m p)).num)
      × ((tick_ms (set_rate m p)).num ≤ 600 * (tick_ms (set_rate m p)).den)
      × (0 < (turn_gap_ms (set_rate m p)).den)
      × (275 * (turn_gap_ms (set_rate m p)).den ≤ 2 * (turn_gap_ms (set_rate m p)).num)
      × ((turn_gap_ms (set_rate m p)).num ≤ 1100 * (turn_gap_ms (set_rate m p)).den)
unfolding tick_ms turn_gap_ms set_rate
set_rate-delays m p h = ground arith
