-- ===== src/Protocol/Ask.antt =====
-- The outbound `ask` message, `buildAsk` of frontend/src/lib/protocol.ts. `trim` and the iteration
-- over code points are those of ECMAScript.
pub mod Laws
use council.Prelude.{
  ℕ, ◌+◌, ◌%◌, ◌*◌, ◌≤◌, ◌<◌, ◌≡◌, ◌≢◌, refl, sym, ap, ◌∙◌, Bool, true, false, not, ◌&&◌, ◌||◌,
  Option, none, some, List, [], ◌∷◌, Text, text, nat_eq, ltb, leb, if◌then◌else◌, arith, Bool-cases,
  inl, inr, ◌⊎◌,
}
use council.Protocol.{max_rounds}

-- What `trim` removes: white space and line terminators.
abbrev pub is_white : ℕ → Bool
is_white ch =
    (leb 9 ch && leb ch 13)
    || nat_eq ch 32
    || nat_eq ch 160
    || nat_eq ch 5760
    || (leb 8192 ch && leb ch 8202)
    || nat_eq ch 8232
    || nat_eq ch 8233
    || nat_eq ch 8239
    || nat_eq ch 8287
    || nat_eq ch 12288
    || nat_eq ch 65279

unfoldable pub trim_start : Text → Text
trim_start [] = []
trim_start (ch ∷ s) = if is_white ch then trim_start s else ch ∷ s

-- `ch ∷ rest`, unless that would end in white space.
abbrev pub unless_blank : ℕ → Text → Text
unless_blank ch [] = if is_white ch then [] else ch ∷ []
unless_blank ch (d ∷ rest) = ch ∷ d ∷ rest

unfoldable pub trim_end : Text → Text
trim_end [] = []
trim_end (ch ∷ s) = unless_blank ch (trim_end s)

unfoldable pub trim : Text → Text
unfolding trim_start trim_end
trim s = trim_end (trim_start s)

-- The two halves of a surrogate pair.
abbrev pub is_high : ℕ → Bool
is_high ch = leb 55296 ch && leb ch 56319

abbrev pub is_low : ℕ → Bool
is_low ch = leb 56320 ch && leb ch 57343

-- `[...s].length`, with the half pair that the unit before left open.
unfoldable pub runes_from : Bool → Text → ℕ
runes_from pair [] = 0
runes_from pair (ch ∷ s) =
    let rest : ℕ = runes_from (is_high ch) s in
    let closed : ℕ = runes_from false s in if pair && is_low ch then closed else rest + 1

unfoldable pub rune_count : Text → ℕ
unfolding runes_from
rune_count s = runes_from false s

abbrev pub max_question_runes : ℕ
max_question_runes = 1000

abbrev pub min_rounds : ℕ
min_rounds = 2

-- A JavaScript number as the checks see it: `other` is what `Number.isInteger` refuses.
pub data Number : Type 0 where
  whole minus : ℕ → Number
  other : Number

pub record AskMessage : Type 0 where
  pub question : Text
  pub rounds : Option Number

pub data BuildAskResult : Type 0 where
  built : AskMessage → BuildAskResult
  refused : Text → BuildAskResult

-- The negation of the test on `rounds`; a negative number is below `MIN_ROUNDS`.
abbrev pub valid_rounds : Number → Bool
valid_rounds (whole n) = not (ltb n min_rounds) && not (ltb max_rounds n) && nat_eq (n % 2) 0
valid_rounds (minus n) = false
valid_rounds other = false

abbrev pub valid_optional : Option Number → Bool
valid_optional none = true
valid_optional (some n) = valid_rounds n

-- The end of `buildAsk`, on a trimmed question.
unfoldable pub build_trimmed : Text → Option Number → BuildAskResult
build_trimmed [] rounds = refused (text "Ask a question to convene the council.")
build_trimmed (ch ∷ s) rounds =
    if ltb max_question_runes (rune_count (ch ∷ s))
    then refused (text "Question must be 1000 characters or fewer.")
    else if valid_optional rounds
    then built (record { question = ch ∷ s; rounds = rounds })
    else refused (text "Rounds must be an even number between 2 and 8.")

unfoldable pub build_ask : Text → Option Number → BuildAskResult
unfolding build_trimmed trim
build_ask question rounds = build_trimmed (trim question) rounds
