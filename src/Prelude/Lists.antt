-- ===== src/Prelude/Lists.antt =====
-- Lists measured and indexed by native numbers, under the library's names, and prefixes.
use Prim.Native.Nat.{ℕ, zero, suc, ◌+◌, ◌-◌, ◌≤◌, min}
use mathlib.Core.Path.{◌≡◌, refl, ap}
use mathlib.Core.Bool.{Bool}
use mathlib.Core.Option.{Option, none, some}
use mathlib.Core.List.{List, [], ◌∷◌, ◌++◌}
use native.Mathlib.Omega.{arith}
use council.Prelude.Tests.{if◌then◌else◌, nat_eq}

module _ {ℓ} {A : Type ℓ} where
  abbrev pub length : List A → ℕ
  length [] = 0
  length (x ∷ xs) = suc (length xs)

  abbrev pub get_or : List A → ℕ → A → A
  get_or [] i d = d
  get_or (x ∷ xs) zero d = x
  get_or (x ∷ xs) (suc i) d = get_or xs i d

  abbrev pub item_at : ℕ → List A → Option A
  item_at i [] = none
  item_at zero (x ∷ xs) = some x
  item_at (suc i) (x ∷ xs) = item_at i xs

  abbrev pub update_at : ℕ → (A → A) → List A → List A
  update_at i f [] = []
  update_at zero f (x ∷ xs) = f x ∷ xs
  update_at (suc i) f (x ∷ xs) = x ∷ update_at i f xs

  abbrev pub take : ℕ → List A → List A
  take zero xs = []
  take (suc n) [] = []
  take (suc n) (x ∷ xs) = x ∷ take n xs

  abbrev pub drop : ℕ → List A → List A
  drop zero xs = xs
  drop (suc n) [] = []
  drop (suc n) (x ∷ xs) = drop n xs

  -- `xs.slice(from, to)` for numbers within the list.
  abbrev pub slice : List A → ℕ → ℕ → List A
  slice xs from to = take (to - from) (drop from xs)

  -- `xs.filter(p)`, which runs in a test.
  abbrev pub keep : (A → Bool) → List A → List A
  keep p [] = []
  keep p (x ∷ xs) = if p x then x ∷ keep p xs else keep p xs

module _ {ℓ} {A : Type ℓ} where
  pub length-append : (xs ys : List A) → length (xs ++ ys) ≡ length xs + length ys
  length-append [] ys = omega arith
  length-append (x ∷ xs) ys = omega (arith, length-append xs ys)

  pub drop-append : (xs ys : List A) → drop (length xs) (xs ++ ys) ≡ ys
  drop-append [] ys = refl
  drop-append (x ∷ xs) ys = drop-append xs ys

  pub drop_all : (xs : List A) → drop (length xs) xs ≡ []
  drop_all [] = refl
  drop_all (x ∷ xs) = drop_all xs

  pub item_at-append :
      (i : ℕ) (x : A) (xs : List A)
      → item_at i (xs ++ x ∷ []) ≡ (if nat_eq i (length xs) then some x else item_at i xs)
  item_at-append zero x [] = refl
  item_at-append (suc i) x [] = ground arith
  item_at-append zero x (y ∷ xs) = ground arith
  item_at-append (suc i) x (y ∷ xs) = ground (arith, item_at-append i x xs)

  pub item_at_last : (x : A) (xs : List A) → item_at (length xs) (xs ++ x ∷ []) ≡ some x
  item_at_last x [] = refl
  item_at_last x (y ∷ xs) = item_at_last x xs

  pub update_at_last :
      (f : A → A) (x : A) (xs : List A) → update_at (length xs) f (xs ++ x ∷ []) ≡ xs ++ f x ∷ []
  update_at_last f x [] = refl
  update_at_last f x (y ∷ xs) = ap (◌∷◌ y) (update_at_last f x xs)

  -- An update that keeps the item at its place keeps the list.
  pub update_at_kept :
      (i : ℕ) (f : A → A) (xs : List A)
      → ((x : A) → item_at i xs ≡ some x → f x ≡ x)
      → update_at i f xs ≡ xs
  update_at_kept i f [] h = refl
  update_at_kept zero f (x ∷ xs) h = ap (λ y. y ∷ xs) (h x refl)
  update_at_kept (suc i) f (x ∷ xs) h = ap (◌∷◌ x) (update_at_kept i f xs h)

  pub length-take : (n : ℕ) (xs : List A) → length (take n xs) ≡ min n (length xs)
  length-take zero xs = omega arith
  length-take (suc n) [] = omega arith
  length-take (suc n) (x ∷ xs) = omega (arith, length-take n xs)

  pub length-drop : (n : ℕ) (xs : List A) → length (drop n xs) ≡ length xs - n
  length-drop zero xs = omega arith
  length-drop (suc n) [] = omega arith
  length-drop (suc n) (x ∷ xs) = omega (arith, length-drop n xs)

  pub take-of_length_le : (n : ℕ) (xs : List A) → length xs ≤ n → take n xs ≡ xs
  take-of_length_le zero [] h = refl
  take-of_length_le zero (x ∷ xs) h = absurd (omega arith)
  take-of_length_le (suc n) [] h = refl
  take-of_length_le (suc n) (x ∷ xs) h = ap (◌∷◌ x) (take-of_length_le n xs (omega arith))

  -- Cutting before an append loses nothing that the final cut keeps.
  pub take-take_append : (n : ℕ) (xs ys : List A) → take n (take n xs ++ ys) ≡ take n (xs ++ ys)
  take-take_append zero xs ys = refl
  take-take_append (suc n) [] ys = refl
  take-take_append (suc n) (x ∷ xs) ys = ap (◌∷◌ x) (take-take_append n xs ys)

  take-nil : (k : ℕ) → take {A = A} k [] ≡ []
  take-nil zero = refl
  take-nil (suc k) = refl

  -- A prefix followed by the next slice is the longer prefix.
  pub take-append-slice : (m n : ℕ) (xs : List A) → m ≤ n → take m xs ++ slice xs m n ≡ take n xs
  take-append-slice zero n xs h = let e : n - 0 ≡ n = omega arith in rw e
  take-append-slice (suc m) zero xs h = absurd (omega arith)
  take-append-slice (suc m) (suc n) [] h = take-nil (suc n - suc m)
  take-append-slice (suc m) (suc n) (x ∷ xs) h =
      let e : suc n - suc m ≡ n - m = omega arith in
      rw e (ap (◌∷◌ x) (take-append-slice m n xs (omega arith)))

  pub take_all : (xs : List A) → take (length xs) xs ≡ xs
  take_all xs = take-of_length_le (length xs) xs (omega arith)

  -- `xs` is a prefix of `ys`.
  abbrev pub IsPrefix : List A → List A → Type ℓ
  IsPrefix xs ys = take (length xs) ys ≡ xs

  pub IsPrefix-nil : (xs : List A) → IsPrefix [] xs
  IsPrefix-nil xs = refl

  pub IsPrefix-append : (xs ys : List A) → IsPrefix xs (xs ++ ys)
  IsPrefix-append [] ys = refl
  IsPrefix-append (x ∷ xs) ys = ap (◌∷◌ x) (IsPrefix-append xs ys)

  pub IsPrefix-trans : (xs ys zs : List A) → IsPrefix xs ys → IsPrefix ys zs → IsPrefix xs zs
  IsPrefix-trans [] ys zs p q = refl
  IsPrefix-trans (x ∷ xs) [] zs p q = absurd (omega (arith, ap length p))
  IsPrefix-trans (x ∷ xs) (y ∷ ys) [] p q = absurd (omega (arith, ap length q))
  IsPrefix-trans (x ∷ xs) (y ∷ ys) (z ∷ zs) p q =
      let ih : IsPrefix xs zs = IsPrefix-trans xs ys zs (cc) (cc) in cc

  pub IsPrefix-take : (n : ℕ) (xs : List A) → IsPrefix (take n xs) xs
  IsPrefix-take zero xs = refl
  IsPrefix-take (suc n) [] = refl
  IsPrefix-take (suc n) (x ∷ xs) = ap (◌∷◌ x) (IsPrefix-take n xs)

  pub IsPrefix-take_append :
      (n : ℕ) (xs ys : List A) → length xs ≤ n → IsPrefix xs (take n (xs ++ ys))
  IsPrefix-take_append n [] ys h = refl
  IsPrefix-take_append zero (x ∷ xs) ys h = absurd (omega arith)
  IsPrefix-take_append (suc n) (x ∷ xs) ys h =
      ap (◌∷◌ x) (IsPrefix-take_append n xs ys (omega arith))
