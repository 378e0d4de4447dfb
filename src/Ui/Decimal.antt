-- ===== src/Ui/Decimal.antt =====
-- Numerals: what a template literal prints for a whole number, and what `Number` reads.
use council.Prelude.{
  ℕ, zero, suc, ◌+◌, ◌-◌, ◌*◌, ◌/◌, ◌%◌, ◌<◌, ◌≡◌, ap, ◌∙◌, [], ◌∷◌, Text, ltb, if◌then◌else◌,
  arith, Bool-cases, inl, inr,
}

-- The digits of `n` before `rest`, on fuel.
unfoldable pub digits : ℕ → ℕ → Text → Text
digits zero n rest = rest
digits (suc fuel) n rest =
    let more : Text = digits fuel (n / 10) ((48 + n % 10) ∷ rest) in
    if ltb n 10 then (48 + n) ∷ rest else more

-- `${n}`.
unfoldable pub decimal : ℕ → Text
unfolding digits
decimal n = digits (n + 1) n []

unfoldable pub read_digits : ℕ → Text → ℕ
read_digits n [] = n
read_digits n (ch ∷ s) = read_digits (n * 10 + (ch - 48)) s

-- `Number(s)` for a string of decimal digits, as the values of the options are.
unfoldable pub number_of : Text → ℕ
unfolding read_digits
number_of s = read_digits 0 s

read_digits-digits :
    (fuel n : ℕ) (rest : Text) → n < fuel → read_digits 0 (digits fuel n rest) ≡ read_digits n rest
unfolding digits read_digits
read_digits-digits zero n rest h = absurd (omega arith)
read_digits-digits (suc fuel) n rest h = elim (Bool-cases (ltb n 10)) [
  | inl e ↦ rw e (ap (λ k. read_digits k rest) (omega arith))
  | inr e ↦ rw e (
      read_digits-digits fuel (n / 10) ((48 + n % 10) ∷ rest) (ground arith)
      ∙ ap (λ k. read_digits k rest) (omega arith))
]

-- A number that was printed is read back.
pub number_of-decimal : (n : ℕ) → number_of (decimal n) ≡ n
unfolding number_of decimal read_digits
number_of-decimal n = read_digits-digits (n + 1) n [] (omega arith)
