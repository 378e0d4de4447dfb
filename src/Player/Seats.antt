-- ===== src/Player/Seats.antt =====
-- The seating order: turns in the order in which they are played.
use council.Prelude.{
  ℕ, zero, suc, ◌+◌, ◌≤◌, ◌<◌, ◌≡◌, refl, sym, ap, ◌∙◌, ◌⊎◌, inl, inr, false, arith,
}
use council.Persona.{
  PersonaId, skeptic, optimist, expert, contrarian, moderator, same, seat, moderator_id,
}

pub lt-or-eq : (a b : ℕ) → a < b + 1 → (a < b) ⊎ (a ≡ b)
lt-or-eq a b h = ground arith

abbrev pub IsPanelist : PersonaId → Type 0
IsPanelist q = same q moderator_id ≡ false

-- The place of a panelist in the seating order.
abbrev pub seat_of : PersonaId → ℕ
seat_of skeptic = 0
seat_of optimist = 1
seat_of expert = 2
seat_of contrarian = 3
seat_of moderator = 4

pub seat-seat_of : (q : PersonaId) → seat (seat_of q) ≡ q
seat-seat_of skeptic = refl
seat-seat_of optimist = refl
seat-seat_of expert = refl
seat-seat_of contrarian = refl
seat-seat_of moderator = refl

pub seat_of-lt : (q : PersonaId) → IsPanelist q → seat_of q < 4
seat_of-lt q h = ground arith

pub seat_of-seat : (i : ℕ) → i < 4 → (seat_of (seat i) ≡ i) × IsPanelist (seat i)
seat_of-seat zero h = (refl, refl)
seat_of-seat (suc zero) h = (refl, refl)
seat_of-seat (suc (suc zero)) h = (refl, refl)
seat_of-seat (suc (suc (suc zero))) h = (refl, refl)
seat_of-seat (suc (suc (suc (suc i)))) h = absurd (omega arith)

-- The turn of `q` in round `s` comes before that of seat `i` in round `r`.
abbrev pub IsBefore : PersonaId → ℕ → ℕ → ℕ → Type 0
IsBefore q s r i = (s < r) ⊎ ((s ≡ r) × (seat_of q < i))

-- The turns before `r'` and `i'` are those before seat `i` of round `r`, and that turn itself.
pub record IsNext (r i r' i' : ℕ) : Type 0 where
  pub seated : i' < 4
  pub later : r ≤ r'
  pub soon : r' ≤ r + 1
  pub resumes : 0 < i' → r' ≡ r
  pub back :
      (q : PersonaId) (s : ℕ)
      → IsPanelist q
      → IsBefore q s r' i'
      → IsBefore q s r i ⊎ ((q ≡ seat i) × (s ≡ r))
  pub on : (q : PersonaId) (s : ℕ) → IsPanelist q → IsBefore q s r i → IsBefore q s r' i'
  pub self : IsBefore (seat i) r r' i'

seat_eq : (q : PersonaId) (i : ℕ) → seat_of q ≡ i → q ≡ seat i
seat_eq q i e = sym (seat-seat_of q) ∙ ap seat e

back_beside :
    (q : PersonaId) (s r i : ℕ)
    → IsBefore q s r (i + 1)
    → IsBefore q s r i ⊎ ((q ≡ seat i) × (s ≡ r))
back_beside q s r i (inl h) = inl (inl h)
back_beside q s r i (inr (e, h)) = elim (lt-or-eq (seat_of q) i h) [
  | inl old ↦ inl (inr (e, old))
  | inr same_seat ↦ inr (seat_eq q i same_seat, e)
]

-- Within a round the next seat is the one beside.
pub IsNext-beside : (r i : ℕ) → i < 3 → IsNext r i r (i + 1)
IsNext-beside r i h = record {
  seated = omega arith;
  later = omega arith;
  soon = omega arith;
  resumes = λ p. refl;
  back = λ q s w b. back_beside q s r i b;
  on = λ q s w b. ground arith;
  self = inr (refl, ground (arith, (seat_of-seat i (omega arith)).0));
}

back_round :
    (q : PersonaId) (s r : ℕ)
    → IsPanelist q
    → IsBefore q s (r + 1) 0
    → IsBefore q s r 3 ⊎ ((q ≡ seat 3) × (s ≡ r))
back_round q s r w (inl h) = elim (lt-or-eq s r h) [
  | inl old ↦ inl (inl old)
  | inr e ↦ back_beside q s r 3 (inr (e, seat_of-lt q w))
]
back_round q s r w (inr (e, h)) = absurd (omega arith)

-- After the last seat the next round begins.
pub IsNext-round : (r : ℕ) → IsNext r 3 (r + 1) 0
IsNext-round r = record {
  seated = omega arith;
  later = omega arith;
  soon = omega arith;
  resumes = λ p. absurd (omega arith);
  back = λ q s w b. back_round q s r w b;
  on = λ q s w b. ground arith;
  self = inl (omega arith);
}
