-- ===== src/Ui/Debug.antt =====
-- The debug view, frontend/src/components/DebugView.tsx. `dump` stands for the JSON that the view
-- prints of the state.
use council.Prelude.{ℕ, Bool, not, ◌&&◌, some, List, [], ◌∷◌, ◌++◌, Text, text}
use council.Protocol.Ask.{BuildAskResult, build_ask, whole, trim}
use council.Reducer.{DebatePhase, DebateState}
use council.Ui.Html.{
  Html, Tag, blank, el, says, only_if, each, ◌⊹◌, on_click, on_change, disabled, value,
}
use council.Ui.Decimal.{decimal, number_of}
use council.Ui.Controls.{round_options}
use council.Ui.QuestionForm.{is_built, error_of, is_filled}

-- The names of the phases, which the view prints.
abbrev pub phase_text : DebatePhase → Text
phase_text DebatePhase.idle = text "idle"
phase_text DebatePhase.connecting = text "connecting"
phase_text DebatePhase.debating = text "debating"
phase_text DebatePhase.moderating = text "moderating"
phase_text DebatePhase.done = text "done"
phase_text DebatePhase.stopped = text "stopped"
phase_text DebatePhase.error = text "error"

-- `phase === "connecting"`.
abbrev pub is_connecting : DebatePhase → Bool
is_connecting phase = elim phase [ DebatePhase.connecting ↦ Bool.true | _ ↦ Bool.false ]

-- What the view's hooks give it: the debate's, and its own question and rounds with their setters.
pub record DebugProps (M : Type 0) : Type 0 where
  pub state : DebateState
  pub on_ask : Text → ℕ → List M
  pub on_stop : List M
  pub question : Text
  pub rounds : ℕ
  pub on_question : Text → List M
  pub on_rounds : ℕ → List M

module _ {M : Type 0} (dump : DebateState → Text) where
  unfoldable pub debug_view : DebugProps M → Html M
  debug_view p =
      let validation : BuildAskResult = build_ask p.question (some (whole p.rounds)) in
      let can_ask : Bool = is_built validation && not (is_connecting p.state.phase) in
      el Tag.main [] (
        el Tag.h1 [] (says (text "Council ") ⊹ el Tag.span [] (says (text "· F0 debug")))
        ⊹ (el Tag.section [] (
              el Tag.textarea (value p.question ∷ on_change p.on_question ∷ []) blank
              ⊹ (el Tag.div [] (
                    el Tag.label [] (
                      says (text "rounds ")
                      ⊹ el Tag.select
                          (value (decimal p.rounds)
                            ∷ on_change (λ s. p.on_rounds (number_of s))
                            ∷ [])
                          (each (λ r. el Tag.option (value (decimal r) ∷ []) (says (decimal r)))
                            round_options))
                    ⊹ (el Tag.button
                          (disabled (not can_ask) ∷ on_click (p.on_ask p.question p.rounds) ∷ [])
                          (says (text "Convene"))
                        ⊹ (el Tag.button (on_click p.on_stop ∷ []) (says (text "Stop"))
                            ⊹ el Tag.span [] (says (text "phase: " ++ phase_text p.state.phase)))))
                  ⊹ only_if (not (is_built validation) && is_filled (trim p.question))
                      (el Tag.p [] (says (error_of validation)))))
            ⊹ el Tag.pre [] (says (dump p.state))))
