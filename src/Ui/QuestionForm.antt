-- ===== src/Ui/QuestionForm.antt =====
-- The form that asks, frontend/src/components/controls/QuestionForm.tsx. Its question and rounds are
-- kept by `useState`; `on_question` and `on_rounds` are the setters.
use council.Prelude.{
  ℕ, Bool, true, false, not, ◌&&◌, ◌||◌, Option, none, some, List, [], ◌∷◌, ◌++◌, Text, text,
  if◌then◌else◌,
}
use council.Protocol.Ask.{
  BuildAskResult, built, refused, whole, build_ask, trim, rune_count, max_question_runes,
}
use council.Reducer.{DebatePhase}
use council.Ui.Html.{
  Html, Tag, Attr, blank, el, says, only_if, ◌⊹◌, on_click, on_submit, on_command_enter, on_change,
  disabled, aria_label, invalid, value,
}
use council.Ui.Decimal.{decimal}
use council.Ui.Controls.{
  live_phases, seat_indicator, topic_preset_chips, rounds_selector, sound_toggle,
}

-- `validation.ok`.
abbrev pub is_built : BuildAskResult → Bool
is_built (built m) = true
is_built (refused e) = false

-- `validation.error`.
abbrev pub error_of : BuildAskResult → Text
error_of (built m) = []
error_of (refused e) = e

-- `s !== ""`.
abbrev pub is_filled : Text → Bool
is_filled [] = false
is_filled (ch ∷ s) = true

-- The props; `toggle` is `soundEnabled` with `onToggleSound`, where they are given.
pub record QuestionFormProps (M : Type 0) : Type 0 where
  pub phase : DebatePhase
  pub on_ask : Text → ℕ → List M
  pub on_stop : List M
  pub toggle : Option (Bool × List M)
  pub question : Text
  pub rounds : ℕ
  pub on_question : Text → List M
  pub on_rounds : ℕ → List M

module _ {M : Type 0} where
  -- `submit`.
  unfoldable pub submit : QuestionFormProps M → List M
  submit p =
      if is_built (build_ask p.question (some (whole p.rounds))) && not (live_phases p.phase)
      then p.on_ask (trim p.question) p.rounds
      else []

  -- The toggle, if its handler is given.
  abbrev pub optional_toggle : Option (Bool × List M) → Html M
  optional_toggle none = blank
  optional_toggle (some (enabled, on_toggle)) = sound_toggle enabled on_toggle

  -- A click on the submit button submits the form, so it is given the form's handler. Moving the
  -- focus is not modelled.
  unfoldable pub question_form : QuestionFormProps M → Html M
  unfolding submit
  question_form p =
      let validation : BuildAskResult = build_ask p.question (some (whole p.rounds)) in
      let live : Bool = live_phases p.phase in
      let show_error : Bool = not (is_built validation) && is_filled (trim p.question) in
      el Tag.form (on_submit (submit p) ∷ []) (
        seat_indicator
        ⊹ (topic_preset_chips p.on_question live
            ⊹ (el Tag.label [] (says (text "The motion"))
                ⊹ (el Tag.textarea
                      (aria_label (text "The motion — your question for the council")
                        ∷ invalid show_error
                        ∷ value p.question
                        ∷ on_change p.on_question
                        ∷ on_command_enter (submit p)
                        ∷ [])
                      blank
                    ⊹ (rounds_selector p.rounds p.on_rounds live
                        ⊹ (el Tag.button
                              (disabled (not (is_built validation) || live)
                                ∷ on_click (submit p)
                                ∷ [])
                              (says (
                                if live
                                then text "Council in session…"
                                else text "Convene the council"))
                            ⊹ (only_if live
                                  (el Tag.button (on_click p.on_stop ∷ []) (says (text "Stop")))
                                ⊹ (optional_toggle p.toggle
                                    ⊹ (el Tag.span [] (
                                          says (
                                            decimal (rune_count p.question)
                                            ++ (text " / " ++ decimal max_question_runes)))
                                        ⊹ only_if show_error (
                                            el Tag.p (Attr.role (text "alert") ∷ [])
                                              (says (error_of validation))))))))))))
