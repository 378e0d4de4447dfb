-- ===== src/Ui/Overlay.antt =====
-- What floats over the stage, frontend/src/components/overlay: Docket, QuestionOverlay and
-- StageControls.
use council.Prelude.{ℕ, Bool, not, ◌&&◌, none, List, [], ◌∷◌, Text, text, if◌then◌else◌}
use council.Protocol.Ask.{trim}
use council.Reducer.{DebatePhase}
use council.Player.State.{Fraction}
use council.Ui.Html.{
  Html, Tag, el, says, only_if, ◌⊹◌, on_click, disabled, pressed, inert, aria_hidden, aria_label,
  title,
}
use council.Ui.Controls.{live_phases, playback_controls, sound_toggle}
use council.Ui.QuestionForm.{QuestionFormProps, question_form, is_filled}
use council.Ui.Status.{connection_status}

-- The props of StageControls.
pub record StageControlsProps (M : Type 0) : Type 0 where
  pub phase : DebatePhase
  pub composing : Bool
  pub on_stop : List M
  pub on_ask_another : List M
  pub drawer_open : Bool
  pub on_toggle_drawer : List M
  pub sound_enabled : Bool
  pub on_toggle_sound : List M
  pub rate : Fraction
  pub on_set_rate : Fraction → List M
  pub is_at_live : Bool
  pub on_go_to_live : List M

module _ {M : Type 0} where
  unfoldable pub docket : Text → DebatePhase → ℕ → ℕ → List M → Bool → Html M
  unfolding connection_status
  docket question phase current rounds on_edit edit_disabled = only_if (is_filled (trim question)) (
      el Tag.aside (aria_label (text "Debate docket") ∷ []) (
        el Tag.p [] (says (text "The council is deliberating"))
        ⊹ (el Tag.button
              (on_click on_edit
                ∷ disabled edit_disabled
                ∷ title (
                    if edit_disabled
                    then text "Available once the debate finishes"
                    else text "Edit or ask another question")
                ∷ [])
              (says question)
            ⊹ el Tag.div [] (connection_status phase current rounds))))

  -- The form is given no sound toggle, and a stop that does nothing.
  unfoldable pub question_overlay : Bool → QuestionFormProps M → Html M
  unfolding question_form
  question_overlay visible form =
      el Tag.div (inert (not visible) ∷ aria_hidden (not visible) ∷ []) (
        el Tag.div [] (el Tag.div [] (question_form (record form { on_stop = []; toggle = none }))))

  unfoldable pub stage_controls : StageControlsProps M → Html M
  unfolding playback_controls sound_toggle
  stage_controls p =
      let live : Bool = live_phases p.phase in
      el Tag.div [] (
        playback_controls p.phase p.rate p.on_set_rate p.is_at_live p.on_go_to_live
        ⊹ (only_if live (el Tag.button (on_click p.on_stop ∷ []) (says (text "Stop")))
            ⊹ (only_if (not live && not p.composing)
                  (el Tag.button (on_click p.on_ask_another ∷ []) (says (text "Ask another")))
                ⊹ (el Tag.button
                      (on_click p.on_toggle_drawer
                        ∷ pressed p.drawer_open
                        ∷ aria_label (
                            if p.drawer_open
                            then text "Hide transcript"
                            else text "Show transcript")
                        ∷ [])
                      (says (text "Transcript"))
                    ⊹ el Tag.span [] (sound_toggle p.sound_enabled p.on_toggle_sound)))))
