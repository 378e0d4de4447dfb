-- ===== src/Protocol/Ask/Laws.antt =====
-- What `buildAsk` accepts, and trimming.
use council.Prelude.{
  ℕ, ◌≤◌, ◌≡◌, ◌≢◌, refl, sym, ap, ◌∙◌, ◌⊎◌, inl, inr, true, false, Option, none, some, [], ◌∷◌,
  Text, arith, Bool-cases, true≢false,
}
use council.Protocol.Ask.{
  is_white, trim_start, unless_blank, trim_end, trim, rune_count, Number, whole, AskMessage, built,
  valid_optional, build_trimmed, build_ask,
}

unless_blank-trim_end :
    (ch : ℕ) (s : Text) → trim_end s ≡ s → trim_end (unless_blank ch s) ≡ unless_blank ch s
unfolding trim_end
unless_blank-trim_end ch [] h = elim (Bool-cases (is_white ch)) [
  | inl e ↦ rw e refl
  | inr e ↦ rw (e, e) refl
]
unless_blank-trim_end ch (d ∷ s) h = rw h refl

trim_end-trim_end : (s : Text) → trim_end (trim_end s) ≡ trim_end s
unfolding trim_end
trim_end-trim_end [] = refl
trim_end-trim_end (ch ∷ s) = unless_blank-trim_end ch (trim_end s) (trim_end-trim_end s)

-- White space at the front survives no `trim_start`, and none comes back with `trim_end`.
black_front :
    (ch : ℕ) (s : Text) → is_white ch ≡ false → trim_start (unless_blank ch s) ≡ unless_blank ch s
unfolding trim_start
black_front ch [] h = rw (h, h) refl
black_front ch (d ∷ s) h = rw h refl

trim_start-trim : (s : Text) → trim_start (trim s) ≡ trim s
unfolding trim trim_start trim_end
trim_start-trim [] = refl
trim_start-trim (ch ∷ s) = elim (Bool-cases (is_white ch)) [
  | inl e ↦ rw e (trim_start-trim s)
  | inr e ↦ rw e (black_front ch (trim_end s) e)
]

pub trim-trim : (s : Text) → trim (trim s) ≡ trim s
unfolding trim
trim-trim s = ap trim_end (trim_start-trim s) ∙ trim_end-trim_end (trim_start s)

-- A question may be trimmed before it is given to `buildAsk`, with the same result.
pub build_ask-trim :
    (question : Text) (rounds : Option Number)
    → build_ask (trim question) rounds ≡ build_ask question rounds
unfolding build_ask
build_ask-trim question rounds = ap (λ s. build_trimmed s rounds) (trim-trim question)

-- The rounds that the server takes: none given, or an even number from 2 to 8.
abbrev pub AreRounds : Option Number → Type 0
AreRounds none = Unit {0}
AreRounds (some (whole n)) = (n ≡ 2) ⊎ (n ≡ 4) ⊎ (n ≡ 6) ⊎ (n ≡ 8)
AreRounds (some _) = ⊥

pub record IsAsk (question : Text) (rounds : Option Number) : Type 0 where
  pub posed : trim question ≢ []
  pub short : rune_count (trim question) ≤ 1000
  pub allowed : AreRounds rounds

valid-AreRounds : (rounds : Option Number) → valid_optional rounds ≡ true → AreRounds rounds
valid-AreRounds none h = tt
valid-AreRounds (some (whole n)) h = ground arith
valid-AreRounds (some (Number.minus n)) h = absurd (true≢false (sym h))
valid-AreRounds (some Number.other) h = absurd (true≢false (sym h))

AreRounds-valid : (rounds : Option Number) → AreRounds rounds → valid_optional rounds ≡ true
AreRounds-valid none h = refl
AreRounds-valid (some (whole n)) h = ground arith
AreRounds-valid (some (Number.minus n)) h = absurd h
AreRounds-valid (some Number.other) h = absurd h

build_trimmed-built :
    (s : Text) (rounds : Option Number) (m : AskMessage)
    → build_trimmed s rounds ≡ built m
    → (m.question ≡ s)
      × (m.rounds ≡ rounds)
      × (s ≢ [])
      × (rune_count s ≤ 1000)
      × (valid_optional rounds ≡ true)
unfolding build_trimmed
build_trimmed-built [] rounds m h = ground arith
build_trimmed-built (ch ∷ s) rounds m h = ground arith

built-build_trimmed :
    (s : Text) (rounds : Option Number)
    → s ≢ []
    → rune_count s ≤ 1000
    → valid_optional rounds ≡ true
    → build_trimmed s rounds ≡ built (record { question = s; rounds = rounds })
unfolding build_trimmed
built-build_trimmed [] rounds n r v = absurd (n refl)
built-build_trimmed (ch ∷ s) rounds n r v = ground arith

-- `buildAsk` makes a message of exactly the questions that are not blank, have at most 1000 code
-- points once trimmed, and come with no rounds or an even number of them from 2 to 8; the message
-- then holds the trimmed question and the rounds as given.
pub build_ask-built :
    (question : Text) (rounds : Option Number)
    → ((m : AskMessage)
        → build_ask question rounds ≡ built m
        → IsAsk question rounds × (m.question ≡ trim question) × (m.rounds ≡ rounds))
      × (IsAsk question rounds
          → build_ask question rounds
            ≡ built (record { question = trim question; rounds = rounds }))
unfolding build_ask
build_ask-built question rounds = (
  λ m h.
      let (q, r, n, c, v) = build_trimmed-built (trim question) rounds m h in
      (record { posed = n; short = c; allowed = valid-AreRounds rounds v }, q, r),
  λ v.
      built-build_trimmed (trim question) rounds v.posed v.short (AreRounds-valid rounds v.allowed),
)
