-- ===== src/Ui/Layouts.antt =====
-- The two layouts, frontend/src/components/StageLayout.tsx and MobileLayout.tsx. What their own
-- `useState` and `useVerdictSpotlight` keep are records, with the setters as arguments; moving the
-- focus is not modelled. `stage` stands for the lazy DebateStage, `reveal` for what `useSmoothText`
-- shows of a text, and `markdown` for react-markdown's rendering.
use council.Prelude.{
  ℕ, Bool, true, false, not, ◌&&◌, Option, none, some, List, [], ◌++◌, Text, text, if◌then◌else◌,
}
use council.Reducer.{DebatePhase, DebateState}
use council.Player.State.{Fraction}
use council.Hooks.Spotlight.{VerdictSpotlight}
use council.Ui.Html.{Html, Tag, el, says, only_if, ◌⊹◌}
use council.Ui.Controls.{live_phases, playback_controls}
use council.Ui.QuestionForm.{QuestionFormProps, question_form}
use council.Ui.Status.{connection_status, error_banner, stage_announcer, is_done}
use council.Ui.Transcript.{transcript_grid, transcript_drawer}
use council.Ui.Verdict.{header, verdict_panel}
use council.Ui.Verdict
use council.Ui.Overlay.{docket, question_overlay, stage_controls}

-- The props that App gives to both layouts. The last four are the state of the layout's question
-- form, and its setters.
pub record LayoutProps (M : Type 0) : Type 0 where
  pub state : DebateState
  pub question : Text
  pub rounds : ℕ
  pub on_ask : Text → ℕ → List M
  pub on_stop : List M
  pub sound_enabled : Bool
  pub on_toggle_sound : List M
  pub rate : Fraction
  pub on_set_rate : Fraction → List M
  pub is_at_live : Bool
  pub on_go_to_live : List M
  pub form_question : Text
  pub form_rounds : ℕ
  pub on_form_question : Text → List M
  pub on_form_rounds : ℕ → List M

-- The state of the StageLayout.
pub record StageState : Type 0 where
  pub composing : Bool
  pub drawer_open : Bool

-- The first render.
abbrev pub new_stage : DebatePhase → StageState
new_stage phase = record {
  composing = elim phase [ DebatePhase.idle ↦ true | _ ↦ false ];
  drawer_open = false;
}

module _ {M : Type 0} where
  -- The props of the question form, for a handler of its question.
  abbrev pub form_props :
      LayoutProps M → (Text → ℕ → List M) → Option (Bool × List M) → QuestionFormProps M
  form_props p on_ask sound = record {
    phase = p.state.phase;
    on_ask = on_ask;
    on_stop = p.on_stop;
    toggle = sound;
    question = p.form_question;
    rounds = p.form_rounds;
    on_question = p.on_form_question;
    on_rounds = p.on_form_rounds;
  }

module _ {M : Type 0} (reveal : Text → Bool → Text) (markdown : Text → Html M) where
  module _ (stage : DebateState → Html M) (set_composing set_drawer : Bool → List M) where
    -- `handleAsk`.
    abbrev pub stage_ask : LayoutProps M → Text → ℕ → List M
    stage_ask p q r = set_composing false ++ p.on_ask q r

    abbrev pub open_compose : LayoutProps M → List M
    open_compose p = if live_phases p.state.phase then [] else set_composing true

    unfoldable pub stage_layout : LayoutProps M → StageState → Html M
    unfolding docket question_overlay stage_controls transcript_drawer error_banner stage_announcer
    stage_layout p s = el Tag.main [] (
        stage_announcer p.state
        ⊹ (el Tag.div [] (stage p.state)
            ⊹ (el Tag.div [] (
                  el Tag.span [] (says (text "Council"))
                  ⊹ el Tag.div [] (
                      docket p.question p.state.phase p.state.current_round p.rounds
                        (open_compose p) (live_phases p.state.phase)))
                ⊹ (el Tag.div [] (el Tag.div [] (error_banner p.state))
                    ⊹ (question_overlay s.composing (form_props p (stage_ask p) none)
                        ⊹ (el Tag.div [] (
                              stage_controls (record {
                                phase = p.state.phase;
                                composing = s.composing;
                                on_stop = p.on_stop;
                                on_ask_another = open_compose p;
                                drawer_open = s.drawer_open;
                                on_toggle_drawer = set_drawer (not s.drawer_open);
                                sound_enabled = p.sound_enabled;
                                on_toggle_sound = p.on_toggle_sound;
                                rate = p.rate;
                                on_set_rate = p.on_set_rate;
                                is_at_live = p.is_at_live;
                                on_go_to_live = p.on_go_to_live;
                              }))
                            ⊹ transcript_drawer reveal markdown p.state s.drawer_open
                                (set_drawer false)))))))

  module _ (dismiss_verdict : List M) where
    -- `handleAsk`.
    abbrev pub mobile_ask : LayoutProps M → Text → ℕ → List M
    mobile_ask p q r = dismiss_verdict ++ p.on_ask q r

    -- `handleAskAnother`, less the focus.
    abbrev pub mobile_ask_another : List M
    mobile_ask_another = dismiss_verdict

    -- `showVerdict`.
    abbrev pub show_verdict : DebateState → VerdictSpotlight → Bool
    show_verdict state spotlight = spotlight.is_open && is_done state.phase

    unfoldable pub mobile_layout : LayoutProps M → VerdictSpotlight → Html M
    unfolding question_form playback_controls connection_status error_banner transcript_grid
        verdict_panel
    mobile_layout p spotlight = el Tag.main [] (
        header
        ⊹ (question_form (form_props p (mobile_ask p) (some (p.sound_enabled, p.on_toggle_sound)))
            ⊹ (playback_controls p.state.phase p.rate p.on_set_rate p.is_at_live p.on_go_to_live
                ⊹ (connection_status p.state.phase p.state.current_round p.rounds
                    ⊹ (error_banner p.state
                        ⊹ (transcript_grid reveal p.state
                            ⊹ only_if (show_verdict p.state spotlight) (
                                verdict_panel reveal markdown Verdict.done p.state.verdict []
                                  dismiss_verdict mobile_ask_another)))))))
