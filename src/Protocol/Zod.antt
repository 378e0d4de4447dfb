-- ===== src/Protocol/Zod.antt =====
-- What frontend/src/lib/protocol.ts uses of zod, as a parameter, and what zod documents of it.
use council.Prelude.{ℕ, ◌≡◌, ◌≤◌, ◌⊎◌, List, [], ◌∷◌, Option, Text}
use council.Protocol.Parse.{SafeParseResult, success}

-- The fields of an object in the order in which `z.object` is given them, with the type of the row
-- that it returns.
pub data Fields (Schema : Type 0 → Type 0) : Type 0 → Type 1 where
  closed : Fields Schema (Unit {0})
  field : {A B : Type 0} → Text → Schema A → Fields Schema B → Fields Schema (A × B)

-- What the program uses of zod. `whole` is `z.number().int().positive()`, and `max` a bound on it; an
-- object is returned under the names of its fields, which the function tells.
pub record Zod (Json : Type 0) : Type 1 where
  pub Schema : Type 0 → Type 0
  pub safe_parse : {A : Type 0} → Schema A → Json → SafeParseResult A
  pub literal : Text → Schema Text
  pub enum : {A : Type 0} → (A → Text) → List A → Schema A
  pub string : Schema Text
  pub whole : Schema ℕ
  pub max : ℕ → Schema ℕ → Schema ℕ
  pub default : {A : Type 0} → A → Schema A → Schema A
  pub optional : {A : Type 0} → Schema A → Schema (Option A)
  pub object : {A B : Type 0} → Fields Schema A → (A → B) → Schema B
  pub discriminated_union : {A : Type 0} → Text → List (Schema A) → Schema A

module _ {Json : Type 0} (z : Zod Json) where
  -- Each value of the row is one that its field's schema returned; an absent key is a value of `Json`.
  abbrev pub IsRow : {A : Type 0} → Fields z.Schema A → A → Type 0
  IsRow closed end = Unit {0}
  IsRow (field key s fs) (a, row) = ((v : Json) × (z.safe_parse s v ≡ success a)) × IsRow fs row

  -- One of the schemas returned it.
  abbrev pub IsOneOf : {A : Type 0} → List (z.Schema A) → Json → A → Type 0
  IsOneOf [] v a = ⊥
  IsOneOf (s ∷ ss) v a = (z.safe_parse s v ≡ success a) ⊎ IsOneOf ss v a

  -- What zod documents: a positive number is at least 1; a bound refuses all that is above it and
  -- changes nothing; an object is the row of what its fields' schemas returned; and a union returns
  -- what one of its options did.
  pub record IsZod : Type 1 where
    pub positive : (v : Json) (n : ℕ) → z.safe_parse z.whole v ≡ success n → 1 ≤ n
    pub bounded :
        (m : ℕ) (s : z.Schema ℕ) (v : Json) (n : ℕ)
        → z.safe_parse (z.max m s) v ≡ success n
        → (n ≤ m) × (z.safe_parse s v ≡ success n)
    pub rows :
        {A B : Type 0} (fs : Fields z.Schema A) (f : A → B) (v : Json) (b : B)
        → z.safe_parse (z.object fs f) v ≡ success b
        → (a : A) × (IsRow fs a × (f a ≡ b))
    pub options :
        {A : Type 0} (key : Text) (ss : List (z.Schema A)) (v : Json) (a : A)
        → z.safe_parse (z.discriminated_union key ss) v ≡ success a
        → IsOneOf ss v a
