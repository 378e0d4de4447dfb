-- ===== src/Tests/Protocol.antt =====
-- The protocol's theorems at a question with white space around it.
use council.Prelude.{◌≡◌, refl, some, Text, text}
use council.Protocol.Ask.{
  whole, AskMessage, built, trim, build_ask, build_trimmed, trim_start, trim_end, rune_count,
  runes_from,
}
use council.Protocol.Ask.Laws.{IsAsk, build_ask-built}

abbrev asked : Text
asked = text " Is it so? "

build_ask-built_example :
    ((m : AskMessage)
      → build_ask asked (some (whole 4)) ≡ built m
      → IsAsk asked (some (whole 4)) × (m.question ≡ trim asked) × (m.rounds ≡ some (whole 4)))
    × (IsAsk asked (some (whole 4))
        → build_ask asked (some (whole 4))
          ≡ built (record { question = trim asked; rounds = some (whole 4) }))
build_ask-built_example = build_ask-built asked (some (whole 4))

-- The question is sent without the white space.
asked_is_built :
    build_ask asked (some (whole 4))
    ≡ built (record { question = text "Is it so?"; rounds = some (whole 4) })
unfolding build_ask build_trimmed trim trim_start trim_end rune_count runes_from
asked_is_built = refl
