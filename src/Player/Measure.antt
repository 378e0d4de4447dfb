-- ===== src/Player/Measure.antt =====
-- A number for what is left to play, and what a step of the scheduler does to it.
use council.Prelude.{
  ℕ, ℕ-Key, ◌+◌, ◌-◌, ◌*◌, ◌≤◌, ◌<◌, min, ◌≡◌, ap, subst, ◌⊎◌, inl, inr, Bool, true, ◌||◌, none,
  some, List, [], ◌∷◌, arith, ltb, leb, if◌then◌else◌, Option-cases, length,
}
use council.Prelude.Dict
use council.Persona.{PersonaId, seat, moderator_id}
use council.Reveal.Laws.{next_chunk_end_bounds}
use council.Player.State.{Cursor, panelist, ActiveTurn, Player, get_text, max_from, max_panel_round}
use council.Player.{
  Delay, wait, verdict_round, next_cursor, close_turn, take_error, chunk_end, reveal_step, step,
}
use council.Player.Keeps.{SameRecording}
use council.Player.Cases.{reveal_cases, step_cases}

le-max_from : (best : ℕ) (rs : List ℕ) → best ≤ max_from best rs
unfolding max_from
le-max_from best [] = omega arith
le-max_from best (r ∷ rs) = ground (arith, le-max_from (if ltb best r then r else best) rs)

has-le_max_from : (r best : ℕ) (rs : List ℕ) → Dict.has r rs ≡ true → r ≤ max_from best rs
unfolding max_from Dict.has
has-le_max_from r best [] h = cc
has-le_max_from r best (s ∷ rs) h =
    let next : ℕ = if ltb best s then s else best in
    ground (arith, le-max_from next rs, has-le_max_from r next rs)

-- The steps that one turn still takes: its chunks and its end.
abbrev pub cost : Bool → ℕ → ℕ → ℕ
cost fast len pos = if leb len pos then 1 else if fast then 2 else len - pos + 1

abbrev pub is_fast : Player → Bool
is_fast p = p.reduced_motion || p.draining

-- A bound on the steps from a cursor on, if each turn takes at most `k` of them.
unfoldable pub steps_from : ℕ → ℕ → Cursor → ℕ
steps_from k last Cursor.done = 0
steps_from k last Cursor.moderator = k + 1
steps_from k last (panelist r i) = k * (5 * (last + 1 - r) - min i 4) + (k + 1)

unfoldable pub steps_after : ℕ → ℕ → ActiveTurn → ℕ
unfolding steps_from
steps_after k last a = if a.is_moderator then 0 else steps_from k last (next_cursor a.round a.index)

unfoldable pub measure : ℕ → Player → ℕ
unfolding steps_from steps_after
measure k p = elim p.active [
  | none ↦ steps_from k (max_panel_round p) p.cursor
  | some a ↦ cost (is_fast p) (length a.text) a.pos + steps_after k (max_panel_round p) a
]

-- A step that wants another one lowers the measure.
abbrev pub Falls : ℕ → ℕ → Player × Delay → Type 0
Falls k n (q, wait delay) = measure k q < n
Falls k n (q, delay) = Unit {0}

close_turn-measure :
    (k : ℕ) (p : Player) (a : ActiveTurn)
    → measure k (close_turn p a) ≡ steps_from k (max_panel_round p) (next_cursor a.round a.index)
unfolding measure close_turn take_error max_panel_round
close_turn-measure k p a = ground arith

chunk-cost :
    (p : Player) (a : ActiveTurn)
    → a.pos < length a.text
    → cost (is_fast p) (length a.text) (chunk_end p a) < cost (is_fast p) (length a.text) a.pos
unfolding chunk_end
chunk-cost p a h = ground (arith, next_chunk_end_bounds a.text a.pos h)

reveal_step-Falls :
    (k n : ℕ) (p : Player) (a : ActiveTurn)
    → cost (is_fast p) (length a.text) a.pos + steps_after k (max_panel_round p) a ≤ n
    → Falls k n (reveal_step p a)
unfolding steps_after measure max_panel_round
reveal_step-Falls k n p a le =
    reveal_cases (Falls k n) p a (λ h m. tt) (λ h m. ground (arith, close_turn-measure k p a))
      (λ h. ground (arith, chunk-cost p a h))

turns_lem : (k w' w : ℕ) → w' + 1 ≤ w → k + (k * w' + (k + 1)) ≤ k * w + (k + 1)
turns_lem k w' w h = grind arith

-- One turn of `k` steps leads to the next cursor.
next_cursor-steps :
    (k last r i : ℕ)
    → r ≤ last
    → k + steps_from k last (next_cursor r (some i)) ≤ steps_from k last (panelist r i)
unfolding steps_from next_cursor
next_cursor-steps k last r i h =
    let w : ℕ = 5 * (last + 1 - r) - min i 4 in
    ground (
      arith,
      turns_lem k (5 * (last + 1 - r) - min (i + 1) 4) w,
      turns_lem k (5 * (last + 1 - (r + 1)) - min 0 4) w,
    )

-- No recorded text takes more than `k` steps.
abbrev pub CostsAtMost : ℕ → Player → Type 0
CostsAtMost k p = (q : PersonaId) (s : ℕ) → cost (is_fast p) (length (get_text q s p)) 0 ≤ k

measure-idle :
    (k : ℕ) (p : Player) → p.active ≡ none → measure k p ≡ steps_from k (max_panel_round p) p.cursor
unfolding measure
measure-idle k p e = ground arith

-- The steps that are left where the moderator is next.
moderator-steps :
    {P : ℕ → Type 0} (k last : ℕ) (c : Cursor)
    → (c ≡ Cursor.moderator) ⊎ ((r : ℕ) × (i : ℕ) × (c ≡ panelist r i) × P r)
    → k + 1 ≤ steps_from k last c
unfolding steps_from
moderator-steps k last c (inl e) = rw e (omega arith)
moderator-steps k last c (inr (r, i, e, h)) = rw e (omega arith)

pub step-Falls : (k : ℕ) (p : Player) → CostsAtMost k p → Falls k (measure k p) (step p)
unfolding measure max_panel_round steps_after get_text verdict_round
step-Falls k p c =
    step_cases (Falls k (measure k p)) p
      (λ a e. reveal_step-Falls k _ p a (rw (e, measure) (omega arith))) (λ e f. tt)
      (λ r i e f h. reveal_step-Falls k _ _ _ (
        ground (
          arith,
          measure-idle k p e,
          ap (steps_from k (max_panel_round p)) f,
          c (seat i) r,
          has-le_max_from r 0 p.round_complete h,
          next_cursor-steps k (max_panel_round p) r i,
        )))
      (λ e f b t. tt)
      (λ e f t. (
        λ v s. tt,
        λ v g x. tt,
        λ v x g y z. reveal_step-Falls k _ _ _ (
            omega (
              arith,
              measure-idle k p e,
              moderator-steps k (max_panel_round p) p.cursor f,
              subst (λ t. cost (is_fast p) (length t) 0 ≤ k) y (c moderator_id (verdict_round p)),
            )),
      ))

-- Where each turn is revealed in one chunk, two steps are enough for it.
pub CostsAtMost-fast : (p : Player) → is_fast p ≡ true → CostsAtMost 2 p
CostsAtMost-fast p fast q s = ground arith

steps_from-le : (last : ℕ) (c : Cursor) → steps_from 2 last c ≤ 10 * (last + 1) + 3
unfolding steps_from
steps_from-le last (panelist r i) = omega arith
steps_from-le last Cursor.moderator = omega arith
steps_from-le last Cursor.done = omega arith

pub measure_fast : (p : Player) → is_fast p ≡ true → measure 2 p < 10 * (max_panel_round p + 2) + 20
unfolding measure steps_after
measure_fast p fast = elim (Option-cases p.active) [
  | inl e ↦ omega (arith, measure-idle 2 p e, steps_from-le (max_panel_round p) p.cursor)
  | inr (a, e) ↦ ground (arith, steps_from-le (max_panel_round p) (next_cursor a.round a.index))
]

-- Where every text takes at most `k` steps in all, so it does after a step.
pub SameRecording-CostsAtMost :
    (k : ℕ) (p q : Player) → SameRecording p q → CostsAtMost k p → CostsAtMost k q
unfolding get_text
SameRecording-CostsAtMost k p q h c x s = rw (h.text, h.reduced_motion, h.draining) (c x s)
