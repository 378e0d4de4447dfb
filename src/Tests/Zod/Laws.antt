-- ===== src/Tests/Zod/Laws.antt =====
-- The small validator does what zod documents.
use council.Prelude.{
  ℕ, ◌≡◌, refl, ap, ◌∙◌, subst, ◌≤◌, inl, inr, Bool, true, false, List, [], ◌∷◌, Text, leb,
  if◌then◌else◌, leb→le,
}
use council.Protocol.Parse.{SafeParseResult, success, failure}
use council.Protocol.Zod.{Fields, closed, field, IsZod, IsRow, IsOneOf}
use council.Tests.Zod.{
  Value, Parser, refused, member, parse_whole, at_most, parse_row, parse_options, plain, undefined,
  number, string, entry,
}

refused-not : {A : Type 0} (issues : List Text) (a : A) → failure issues ≡ success a → ⊥
refused-not issues a h = cc

success-injective : {A : Type 0} (a b : A) → success a ≡ success b → a ≡ b
success-injective {A} a b h = ap (λ o. elim o as (λ _. A) [ success c ↦ c | failure issues ↦ a ]) h

whole-positive : (v : Value) (n : ℕ) → parse_whole v ≡ success n → 1 ≤ n
unfolding parse_whole
whole-positive undefined n h = absurd (refused-not _ n h)
whole-positive (string s) n h = absurd (refused-not _ n h)
whole-positive (entry k v rest) n h = absurd (refused-not _ n h)
whole-positive (number m) n h = tested (leb 1 m) refl h
  where
    tested : (b : Bool) → leb 1 m ≡ b → (if b then success m else refused) ≡ success n → 1 ≤ n
    tested true e k = subst (λ i. 1 ≤ i) (success-injective m n k) (leb→le 1 m e)
    tested false e k = absurd (refused-not _ n k)

at_most-bounded :
    (m : ℕ) (o : SafeParseResult ℕ) (n : ℕ) → at_most m o ≡ success n → (n ≤ m) × (o ≡ success n)
unfolding at_most
at_most-bounded m (failure issues) n h = absurd (refused-not issues n h)
at_most-bounded m (success i) n h = tested (leb i m) refl h
  where
    tested :
        (b : Bool)
        → leb i m ≡ b
        → (if b then success i else refused) ≡ success n
        → (n ≤ m) × (success i ≡ success n)
    tested true e k = (subst (λ j. j ≤ m) (success-injective i n k) (leb→le i m e), k)
    tested false e k = absurd (refused-not _ n k)

paired :
    {A B : Type 0} (P : A → Type 0) (Q : B → Type 0) (o : SafeParseResult A) (q : SafeParseResult B)
    (a : A) (b : B)
    → ((x : A) → o ≡ success x → P x)
    → ((y : B) → q ≡ success y → Q y)
    → (elim o as (λ _. SafeParseResult (A × B)) [
      | success x ↦ elim q as (λ _. SafeParseResult (A × B)) [
        | success row ↦ success (x, row)
        | failure issues ↦ failure issues
      ]
      | failure issues ↦ failure issues
    ])
      ≡ success (a, b)
    → P a × Q b
paired P Q (failure issues) q a b f g h = absurd (refused-not issues (a, b) h)
paired P Q (success x) (failure issues) a b f g h = absurd (refused-not issues (a, b) h)
paired P Q (success x) (success y) a b f g h =
    let e = success-injective (x, y) (a, b) h in
    (subst P (ap (λ p. p.0) e) (f x refl), subst Q (ap (λ p. p.1) e) (g y refl))

parse_row-IsRow :
    {A : Type 0} (fs : Fields Parser A) (v : Value) (a : A)
    → parse_row fs v ≡ success a
    → IsRow plain fs a
unfolding parse_row
parse_row-IsRow closed v a h = tt
parse_row-IsRow (field key s fs) v (a, row) h =
    paired (λ x. (w : Value) × (s w ≡ success x)) (IsRow plain fs) (s (member key v))
      (parse_row fs v) a row (λ x e. (member key v, e)) (λ y e. parse_row-IsRow fs v y e) h

parse_options-IsOneOf :
    {A : Type 0} (ss : List (Parser A)) (v : Value) (a : A)
    → parse_options ss v ≡ success a
    → IsOneOf plain ss v a
unfolding parse_options
parse_options-IsOneOf [] v a h = refused-not _ a h
parse_options-IsOneOf {A} (s ∷ ss) v a h = first (s v) refl (parse_options-IsOneOf ss v a) h
  where
    first :
        (o : SafeParseResult A)
        → s v ≡ o
        → (parse_options ss v ≡ success a → IsOneOf plain ss v a)
        → (elim o as (λ _. SafeParseResult A) [
          | success x ↦ success x
          | failure issues ↦ parse_options ss v
        ])
          ≡ success a
        → IsOneOf plain (s ∷ ss) v a
    first (success x) e others k = inl (e ∙ k)
    first (failure issues) e others k = inr (others k)

object-rows :
    {A B : Type 0} (fs : Fields Parser A) (f : A → B) (b : B) (v : Value) (o : SafeParseResult A)
    → parse_row fs v ≡ o
    → (elim o as (λ _. SafeParseResult B) [
      | success a ↦ success (f a)
      | failure issues ↦ failure issues
    ])
      ≡ success b
    → (a : A) × (IsRow plain fs a × (f a ≡ b))
object-rows fs f b v (failure issues) e h = absurd (refused-not issues b h)
object-rows fs f b v (success a) e h = (a, (parse_row-IsRow fs v a e, success-injective (f a) b h))

pub plain-IsZod : IsZod plain
plain-IsZod = record {
  positive = whole-positive;
  bounded = λ m s v n h. at_most-bounded m (s v) n h;
  rows = λ fs f v b h. object-rows fs f b v (parse_row fs v) refl h;
  options = λ key ss v a h. parse_options-IsOneOf ss v a h;
}
