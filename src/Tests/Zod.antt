-- ===== src/Tests/Zod.antt =====
-- A small validator, and what the schema reads with it.
pub mod Laws
use council.Prelude.{
  ℕ, ◌≡◌, refl, ap, ◌∙◌, subst, ◌≤◌, inl, inr, Bool, true, false, ◌&&◌, List, [], ◌∷◌, Option, none,
  some, Text, text, leb, nat_eq, if◌then◌else◌, leb→le,
}
use council.Persona.{optimist}
use council.Protocol.{token}
use council.Protocol.Parse.{SafeParseResult, success, failure}
use council.Protocol.Zod.{Fields, closed, field, Zod, IsZod, IsRow, IsOneOf}
use council.Protocol.Schema.{debate_event_schema}

-- The values of a frame; an object is its entries, one after the other.
pub data Value : Type 0 where
  undefined : Value
  number : ℕ → Value
  string : Text → Value
  entry : Text → Value → Value → Value

unfoldable pub same_text : Text → Text → Bool
same_text [] [] = true
same_text (c ∷ s) (d ∷ t) = nat_eq c d && same_text s t
same_text _ _ = false

abbrev pub Parser : Type 0 → Type 0
Parser A = Value → SafeParseResult A

abbrev pub refused : {A : Type 0} → SafeParseResult A
refused = failure (text "Invalid input" ∷ [])

unfoldable pub member : Text → Value → Value
unfolding same_text
member key (entry k v rest) = if same_text key k then v else member key rest
member key _ = undefined

unfoldable pub parse_literal : Text → Parser Text
unfolding same_text
parse_literal t (string s) = if same_text t s then success s else refused
parse_literal t _ = refused

unfoldable pub parse_enum : {A : Type 0} → (A → Text) → List A → Parser A
unfolding same_text
parse_enum name [] v = refused
parse_enum name (a ∷ others) (string s) =
    let rest = parse_enum name others (string s) in if same_text (name a) s then success a else rest
parse_enum name (a ∷ others) _ = refused

unfoldable pub parse_string : Parser Text
parse_string (string s) = success s
parse_string _ = refused

unfoldable pub parse_whole : Parser ℕ
parse_whole (number n) = if leb 1 n then success n else refused
parse_whole _ = refused

unfoldable pub at_most : ℕ → SafeParseResult ℕ → SafeParseResult ℕ
at_most m (success n) = if leb n m then success n else refused
at_most m (failure issues) = failure issues

unfoldable pub or_default : {A : Type 0} → A → Parser A → Parser A
or_default a s undefined = success a
or_default a s v = s v

unfoldable pub or_none : {A : Type 0} → Parser A → Parser (Option A)
or_none s undefined = success none
or_none s v = elim (s v) [ success a ↦ success (some a) | failure issues ↦ failure issues ]

unfoldable pub parse_row : {A : Type 0} → Fields Parser A → Parser A
unfolding member
parse_row closed v = success tt
parse_row (field key s fs) v =
    let rest = parse_row fs v in
    elim (s (member key v)) [
      | success a ↦ elim rest [ success row ↦ success (a, row) | failure issues ↦ failure issues ]
      | failure issues ↦ failure issues
    ]

unfoldable pub parse_options : {A : Type 0} → List (Parser A) → Parser A
parse_options [] v = refused
parse_options (s ∷ ss) v =
    let rest = parse_options ss v in elim (s v) [ success a ↦ success a | failure issues ↦ rest ]

abbrev pub plain : Zod Value
plain = record {
  Schema = Parser;
  safe_parse = λ s v. s v;
  literal = parse_literal;
  enum = parse_enum;
  string = parse_string;
  whole = parse_whole;
  max = λ m s v. at_most m (s v);
  default = or_default;
  optional = or_none;
  object = λ fs f v. elim (parse_row fs v) [
    | success a ↦ success (f a)
    | failure issues ↦ failure issues
  ];
  discriminated_union = λ key ss. parse_options ss;
}

-- A token without its delta, and a round that is out of range.
abbrev pub token_of : ℕ → Value
token_of r =
    entry (text "type") (string (text "token")) (
      entry (text "persona") (string (text "optimist")) (entry (text "round") (number r) undefined))

sparse_token :
    plain.safe_parse (debate_event_schema plain) (token_of 9) ≡ success (token optimist 9 [])
unfolding debate_event_schema parse_options parse_row parse_literal parse_enum or_default at_most
    parse_whole member same_text parse_string
sparse_token = refl

far_token : plain.safe_parse (debate_event_schema plain) (token_of 10) ≡ refused
unfolding debate_event_schema parse_options parse_row parse_literal parse_enum or_default at_most
    parse_whole member same_text parse_string
far_token = refl
