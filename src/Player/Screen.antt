-- ===== src/Player/Screen.antt =====
-- The screen during and after a session, against the recording.
use council.Prelude.{
  ℕ, suc, ◌+◌, ℕ-Key, ◌≤◌, ◌≡◌, ◌≢◌, sym, ap, subst, ◌∙◌, none, some, Option, arith, Text, length,
  IsPrefix, length-take, capped-of_length_le,
}
use council.Prelude.Dict
use council.Persona.{PersonaId}
use council.Reducer.{DebatePhase, rounds_of, text_at}
use council.Reducer.Transcript.{cell, cell-run}
use council.Player.State.{Fraction, Cursor, ActiveTurn, Player, max_turn_chars, get_text}
use council.Player.{skip_to_live, terminal_known, present}
use council.Player.Heard.{heard, kept, buffered}
use council.Player.Shown.{shown}
use council.Player.Seats.{IsPanelist}
use council.Player.Playhead.{AllComplete, Finished}
use council.Player.Fidelity.{IsFaithful, Place}
use council.Player.Session.{Session, skips, Session-IsFaithful}
use council.Player.Drain.{skip_to_live-recorded}
use council.Player.Measure.{CostsAtMost, measure}
use council.Player.Rules.{fires}
use council.Player.Ending.{fires-Delivered, skip_to_live-Delivered}

length-IsPrefix : (xs ys : Text) → IsPrefix xs ys → length xs ≤ length ys
length-IsPrefix xs ys h = omega (arith, ap length h, length-take (length xs) ys)

-- The screen shows what was told: the reducer's own cap never cuts a replayed text.
cell-shown :
    (p : Player) → IsFaithful p → (q : PersonaId) (s : ℕ) → cell (shown p) q s ≡ heard p q s
unfolding shown heard
cell-shown p v q s =
    cell-run q s p.sent
    ∙ capped-of_length_le max_turn_chars (heard p q s)
        (omega (arith, length-IsPrefix (heard p q s) (kept p q s) (v.prefix q s), v.bounded q s))

-- At every moment of a session whose stream is orderly, each cell of the transcript on the screen
-- is a prefix of the text that was recorded for that persona and round.
pub Session-prefix :
    {p : Player} (q : PersonaId) (s : ℕ)
    → Session p
    → IsPrefix (cell (shown p) q s) (get_text q s p)
Session-prefix {p} q s h =
    let v : IsFaithful p = Session-IsFaithful h in
    subst (λ x. IsPrefix x (kept p q s)) (sym (cell-shown p v q s)) (v.prefix q s)

ended-Finished :
    (p : Player) → IsFaithful p → p.cursor ≡ Cursor.done → Finished (heard p) (kept p) (buffered p)
ended-Finished p v e = at p.active (
    subst
      (λ c. Place (heard p) (kept p) (buffered p) (terminal_known p) (present p.verdict) c p.active)
      e v.place)
  where
    at :
        (o : Option ActiveTurn)
        → Place (heard p) (kept p) (buffered p) (terminal_known p) (present p.verdict) Cursor.done o
        → Finished (heard p) (kept p) (buffered p)
    at none (f, o) = f
    at (some a) x = absurd x

-- Once playback has ended, the screen shows the whole recorded text of every panelist in every
-- round up to which all rounds are complete.
pub Session-finished :
    {p : Player} (q : PersonaId) (s : ℕ)
    → Session p
    → p.cursor ≡ Cursor.done
    → IsPanelist q
    → 1 ≤ s
    → AllComplete (buffered p) s
    → cell (shown p) q s ≡ get_text q s p
Session-finished {p} q s h e w one all =
    let v : IsFaithful p = Session-IsFaithful h in
    cell-shown p v q s ∙ ended-Finished p v e q s w one all

-- "Go to live" in a session with its verdict recorded and playback not ended: it returns, the phase
-- is "done", the verdict is shown, and so is the whole recorded text of every panelist in every
-- round up to which all rounds are complete.
pub skip_to_live-shows_all :
    {p : Player} (v : Text)
    → Session p
    → p.verdict ≡ some v
    → p.cursor ≢ Cursor.done
    → (q : Player) × (skip_to_live p ≡ some q)
      × ((shown q).phase ≡ DebatePhase.done)
      × ((shown q).verdict ≡ v)
      × ((x : PersonaId) (s : ℕ)
          → IsPanelist x
          → 1 ≤ s
          → AllComplete (buffered p) s
          → cell (shown q) x s ≡ get_text x s p)
unfolding get_text
skip_to_live-shows_all {p} v h e c =
    let (q, ret, d) = skip_to_live-Delivered v p e c in
    let (text, rounds) = skip_to_live-recorded p q ret in
    (
      q,
      ret,
      d.phase,
      d.verdict,
      λ x s w one all.
          Session-finished x s (skips ret h) d.ended w one
            (λ t lo hi. ap (Dict.has t) rounds ∙ all t lo hi)
          ∙ ap (λ m. text_at s (rounds_of x m)) text,
    )

-- A recorded text takes at most a step for each character and one for its end.
faithful-CostsAtMost : (p : Player) → IsFaithful p → CostsAtMost (max_turn_chars + 1) p
faithful-CostsAtMost p v q s = ground (arith, v.bounded q s)

-- A session with an orderly stream that is left alone ends: once the verdict is recorded, while the
-- timer is armed and the cursor is not at the end, some number of firings, with no other call between,
-- disarms the timer, and the screen then shows the verdict in the phase "done".
pub Session-ends :
    {p : Player} (v : Text) (t : Fraction)
    → Session p
    → p.timer ≡ some t
    → p.verdict ≡ some v
    → p.cursor ≢ Cursor.done
    → (n : ℕ) × ((shown (fires n p)).phase ≡ DebatePhase.done)
      × ((shown (fires n p)).verdict ≡ v)
      × ((fires n p).timer ≡ none)
Session-ends {p} v t h armed judged unfinished =
    let k : ℕ = max_turn_chars + 1 in
    let n : ℕ = measure k p + 1 in
    let (d, quiet) =
      fires-Delivered k n v t p armed judged unfinished
        (faithful-CostsAtMost p (Session-IsFaithful h)) (omega arith) in
    (suc n, d.phase, d.verdict, quiet)
