-- ===== src/Ui/Choices.antt =====
-- What a viewer can choose in the selects of a view, and what each choice sends.
use mathlib.Core.Option
use council.Prelude.{
  ℕ, ℕ-Key, ◌≡◌, refl, ap, Bool, true, false, Option, none, some, List, [], ◌∷◌, ◌++◌, map, Text,
  if◌then◌else◌,
}
use council.Prelude.Dict
use council.Protocol.Ask.{whole, valid_rounds}
use council.Ui.Html.{
  Html, Tag, Attr, blank, words, element, value, on_change, is_inert, is_disabled,
}
use council.Ui.Decimal.{decimal, number_of, digits, read_digits, number_of-decimal}
use council.Ui.Controls.{round_options, rounds_selector}
use council.Ui.Rounds.{round_options-valid_rounds}

module _ {M : Type 0} where
  -- The attribute `value`, if there is one.
  abbrev pub value_of : List (Attr M) → Option Text
  value_of [] = none
  value_of (value t ∷ attrs) = some t
  value_of (_ ∷ attrs) = value_of attrs

  -- What the handler of changes sends for a value.
  abbrev pub sends : List (Attr M) → Text → List M
  sends [] t = []
  sends (on_change f ∷ attrs) t = f t
  sends (_ ∷ attrs) t = sends attrs t

  -- What an element says.
  unfoldable pub says_of : Html M → Text
  says_of blank = []
  says_of (words t h) = t ++ says_of h
  says_of (element tag attrs kids h) = says_of kids ++ says_of h

  -- The options of a select: what each says, and what choosing it sends. The browser gives the handler
  -- the option's value.
  unfoldable pub options_of : (Text → List M) → Html M → List (Text × List M)
  unfolding says_of
  options_of f blank = []
  options_of f (words t h) = options_of f h
  options_of f (element Tag.option attrs kids h) =
      let chosen : Text = elim (value_of attrs) [ none ↦ says_of kids | some t ↦ t ] in
      (says_of kids, f chosen) ∷ options_of f h
  options_of f (element _ attrs kids h) = options_of f kids ++ options_of f h

  -- The choices of all selects that are neither disabled nor within an inert element.
  unfoldable pub choices : Html M → List (Text × List M)
  unfolding options_of
  choices blank = []
  choices (words t h) = choices h
  choices (element Tag.select attrs kids h) =
      (if is_inert attrs
        then []
        else if is_disabled attrs
        then []
        else options_of (sends attrs) kids)
      ++ choices h
  choices (element _ attrs kids h) = (if is_inert attrs then [] else choices kids) ++ choices h

  -- The values that the selects show as chosen.
  unfoldable pub chosen : Html M → List (Option Text)
  chosen blank = []
  chosen (words t h) = chosen h
  chosen (element Tag.select attrs kids h) = value_of attrs ∷ chosen h
  chosen (element _ attrs kids h) = chosen kids ++ chosen h

  -- The selector of rounds: unless it is disabled, each of its choices says a number and hands just
  -- that number to the handler, in the order of the options, and a disabled one has no choice; the
  -- numbers that it offers are exactly those that buildAsk accepts; and the value that it shows as
  -- chosen reads as the number that it was given.
  pub rounds_selector-choices :
      (current : ℕ) (on_rounds : ℕ → List M) (is_off : Bool)
      → (choices (rounds_selector current on_rounds is_off)
          ≡ (if is_off then [] else map (λ r. (decimal r, on_rounds r)) round_options))
        × ((n : ℕ) → Dict.has n round_options ≡ valid_rounds (whole n))
        × (map (Option.map number_of) (chosen (rounds_selector current on_rounds is_off))
            ≡ some current ∷ [])
  unfolding rounds_selector choices options_of says_of chosen decimal number_of digits read_digits
  rounds_selector-choices current on_rounds true =
      (refl, round_options-valid_rounds, ap (λ n. some n ∷ []) (number_of-decimal current))
  rounds_selector-choices current on_rounds false =
      (refl, round_options-valid_rounds, ap (λ n. some n ∷ []) (number_of-decimal current))
