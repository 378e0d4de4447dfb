-- ===== src/Tests/Ui.antt =====
-- The views' theorems at a debate with one panelist speaking.
use mathlib.Core.Option
use council.Prelude.{ℕ, Text, ℕ-Key, ◌≡◌, Bool, false, map, if◌then◌else◌, some, [], ◌∷◌, text}
use council.Prelude.Dict
use council.Persona.{skeptic, moderator, PersonaId-Key}
use council.Protocol.{ErrorEvent}
use council.Reducer.{DebatePhase, DebateState, initial_state}
use council.Ui.Decimal.{decimal, number_of}
use council.Ui.Controls.{round_options, rounds_selector}
use council.Ui.Choices.{choices, chosen, rounds_selector-choices}
use council.Protocol.Ask.{whole, valid_rounds}
use council.Ui.Html.{says, Html, blank, words, ◌⊹◌, clicks}
use council.Ui.Markdown.{Part, link, Rendered, markdown, AllKeepOpener, markdown-harmless}

abbrev debating : DebateState
debating = record initial_state {
  phase = DebatePhase.debating;
  current_round = 1;
  transcript = (skeptic, (1, text "Not so fast") ∷ []) ∷ [];
  active_speakers = skeptic ∷ [];
}

rounds_selector-choices_example :
    (choices (rounds_selector 6 (λ r. r ∷ []) false)
      ≡ (if false then [] else map (λ r. (decimal r, r ∷ [])) round_options))
    × ((n : ℕ) → Dict.has n round_options ≡ valid_rounds (whole n))
    × (map (Option.map number_of) (chosen (rounds_selector 6 (λ r. r ∷ []) false)) ≡ some 6 ∷ [])
rounds_selector-choices_example = rounds_selector-choices 6 (λ r. r ∷ []) false

-- The text that is revealed is the text.
abbrev at_once : Text → Bool → Text
at_once t b = t

abbrev failure : ErrorEvent
failure = record { error = text "no synthesis"; persona = some moderator }

-- A library that renders a text as one link to it.
abbrev one_link : (Part → Html ℕ → Html ℕ) → Text → Html ℕ
one_link render t = render (link (some t)) (words t blank) ⊹ blank

markdown-harmless_example :
    (clicks (markdown one_link (text "a")) ≡ []) × AllKeepOpener (markdown one_link (text "a"))
markdown-harmless_example =
    markdown-harmless one_link
      (λ t.
        Rendered.part (link (some t)) (words t blank) blank (Rendered.says t blank Rendered.nothing)
          Rendered.nothing)
      (text "a")
