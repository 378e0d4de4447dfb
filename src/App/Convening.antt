-- ===== src/App/Convening.antt =====
-- What the page's handlers do to the debate.
use council.Prelude.{
  ℕ, ◌≡◌, refl, sym, ap, ◌∙◌, subst, Bool, true, false, some, List, [], ◌∷◌, Text, arith,
  Bool-cases, inl, inr,
}
use council.Protocol.Ask.{AskMessage, BuildAskResult, built, refused, build_ask, whole, trim}
use council.Protocol.Ask.Laws.{build_ask-trim}
use council.Protocol.Parse.{ParseResult}
use council.Reducer.{DebatePhase, DebateState, initial_state, debate_reducer, control, transport}
use council.Debate.{Debate, state_of, new_debate, DebateStep, debate_step}
use council.Debate
use council.Debate.Wired.{IsWired}
use council.Debate.Refines.{debate_step-Simulates, new-IsWired}
use council.Debate.Asked.{ask-Simulates, convened_lem}
use council.Debate.Seen.{seen}
use council.Debate.Stop.{convened-shown}
use council.Player.Shown.{shown}
use council.Sound.{UseSound}
use council.Hooks.Spotlight.{follow_phase}
use council.Ui.Html.{Html}
use council.Ui.Controls.{live_phases}
use council.Ui.QuestionForm.{submit, is_built}
use council.Ui.Layouts.{StageState}
use council.App.{
  App, stage, on_mobile, on_stage, Msg, ask, stop, set_composing, set_rate, go_to_live, AppStep,
  handles, fires, delivers, resizes, settles, new_app, effects, handle, handle_all, relayout,
  is_stage, app_step, app_run, visited,
}
use council.App.Asking.{stage_form}

effects-debate : (a : App) → (effects a).debate ≡ a.debate
unfolding effects
effects-debate a = refl

pub relayout-debate : (b : Bool) (a : App) → (relayout b a).debate ≡ a.debate
unfolding relayout
relayout-debate true a = elim (Bool-cases (is_stage a.layout)) [
  | inl e ↦ rw e refl
  | inr e ↦ rw e refl
]
relayout-debate false a = elim (Bool-cases (is_stage a.layout)) [
  | inl e ↦ rw e refl
  | inr e ↦ rw e refl
]

-- `b` is `a` with what its form holds convened: the debate is cleared and connecting, the trimmed
-- question and its rounds are shown, and the form is folded away.
abbrev pub IsConvened : App → StageState → App → Type 0
IsConvened a s b =
    (state_of b.debate ≡ record initial_state { phase = DebatePhase.connecting })
    × (b.question ≡ trim a.form_question)
    × (b.rounds ≡ a.form_rounds)
    × (b.layout ≡ stage (record s { composing = false }))

module _ (parse : Text → ParseResult) (stringify : AskMessage → Text) where
  pub step-IsWired :
      (s : DebateStep) (d : Debate) → IsWired d → IsWired (debate_step parse stringify s d)
  step-IsWired s d w = (debate_step-Simulates parse stringify s d w).1

  pub handle-IsWired :
      (msg : Msg) (a : App) → IsWired a.debate → IsWired (handle parse stringify msg a).debate
  unfolding handle
  handle-IsWired (ask q r) a w = step-IsWired (DebateStep.asks q (some (whole r))) a.debate w
  handle-IsWired stop a w = step-IsWired DebateStep.stops a.debate w
  handle-IsWired go_to_live a w = step-IsWired DebateStep.lives a.debate w
  handle-IsWired (set_rate multiplier) a w = step-IsWired (DebateStep.rates multiplier) a.debate w
  handle-IsWired _ a w = w

  pub handle_all-IsWired :
      (msgs : List Msg) (a : App)
      → IsWired a.debate
      → IsWired (handle_all parse stringify msgs a).debate
  unfolding handle_all
  handle_all-IsWired [] a w = w
  handle_all-IsWired (msg ∷ msgs) a w =
      handle_all-IsWired msgs (handle parse stringify msg a) (handle-IsWired msg a w)

  pub app_step-IsWired :
      (s : AppStep) (a : App) → IsWired a.debate → IsWired (app_step parse stringify s a).debate
  unfolding app_step effects
  app_step-IsWired (handles msgs) a w = handle_all-IsWired msgs a w
  app_step-IsWired fires a w = step-IsWired DebateStep.fires a.debate w
  app_step-IsWired (delivers k i ev) a w = step-IsWired (DebateStep.delivers k i ev) a.debate w
  app_step-IsWired (resizes b) a w = subst IsWired (sym (relayout-debate b a)) w
  app_step-IsWired (settles s) a w = w

  app_run-IsWired :
      (ss : List AppStep) (a : App)
      → IsWired a.debate
      → IsWired (app_run parse stringify ss a).debate
  unfolding app_run
  app_run-IsWired [] a w = w
  app_run-IsWired (s ∷ ss) a w =
      app_run-IsWired ss (app_step parse stringify s a) (app_step-IsWired s a w)

  asked_state :
      (q : Text) (r : ℕ) (d : Debate)
      → IsWired d
      → is_built (build_ask q (some (whole r))) ≡ true
      → state_of (Debate.ask (trim q) (some (whole r)) d)
        ≡ record initial_state { phase = DebatePhase.connecting }
  unfolding seen
  asked_state q r d w b =
      ap (λ c. shown c.player)
        ((ask-Simulates (trim q) (some (whole r)) d w).0
          ∙ convened_lem (trim q) (some (whole r)) (seen d))
      ∙ (convened-shown (build_ask (trim q) (some (whole r))) (seen d)
          ∙ connects (build_ask (trim q) (some (whole r)))
              (ap is_built (build_ask-trim q (some (whole r))) ∙ b))
    where
      connects :
          (x : BuildAskResult)
          → is_built x ≡ true
          → elim x [
            | refused e ↦ debate_reducer (shown d.player) (control (transport e))
            | built m ↦ record initial_state { phase = DebatePhase.connecting }
          ]
            ≡ record initial_state { phase = DebatePhase.connecting }
      connects (built m) h = refl
      connects (refused e) h = absurd (ground arith)

  module _ (reveal : Text → Bool → Text) (markdown : Text → Html Msg)
      (debate_stage : DebateState → Html Msg) where
    submitted :
        (a : App)
        → live_phases (state_of a.debate).phase ≡ false
        → is_built (build_ask a.form_question (some (whole a.form_rounds))) ≡ true
        → submit (stage_form reveal markdown debate_stage a)
          ≡ set_composing false ∷ ask (trim a.form_question) a.form_rounds ∷ []
    unfolding submit
    submitted a n v = rw (n, v) refl

    -- Both messages, in a state with the stage mounted.
    handle_all-IsConvened :
        (a : App) (s : StageState)
        → IsWired a.debate
        → a.layout ≡ stage s
        → is_built (build_ask a.form_question (some (whole a.form_rounds))) ≡ true
        → IsConvened a s (
            effects (
              handle_all parse stringify
                (set_composing false ∷ ask (trim a.form_question) a.form_rounds ∷ [])
                a))
    unfolding handle_all handle effects debate_step
    handle_all-IsConvened a s w l v = (
      asked_state a.form_question a.form_rounds a.debate w v,
      refl,
      refl,
      ap
          (λ x.
            on_mobile
              (follow_phase
                (state_of
                  (Debate.ask (trim a.form_question) (some (whole a.form_rounds)) a.debate)).phase)
              (on_stage (λ s. record s { composing = false }) x))
          l,
    )

    -- Convening works from the form to the screen: in every state that the page can reach with the
    -- stage mounted, if the session is not live and buildAsk accepts what the form holds, submitting
    -- it folds the form away, shows the trimmed question and its rounds, and leaves a cleared debate
    -- in the phase connecting.
    pub submit-convenes :
        (reduced_motion stage_first : Bool) (sound : UseSound) (ss : List AppStep) (s : StageState)
        → (visited parse stringify reduced_motion stage_first sound ss).layout ≡ stage s
        → live_phases
            (state_of (visited parse stringify reduced_motion stage_first sound ss).debate).phase
          ≡ false
        → is_built (
            build_ask (visited parse stringify reduced_motion stage_first sound ss).form_question (
              some
                (whole (visited parse stringify reduced_motion stage_first sound ss).form_rounds)))
          ≡ true
        → let a : App = visited parse stringify reduced_motion stage_first sound ss in
          IsConvened a s (
            app_step parse stringify
              (handles (submit (stage_form reveal markdown debate_stage a)))
              a)
    unfolding app_step
    submit-convenes reduced_motion stage_first sound ss s l n v =
        let a : App = visited parse stringify reduced_motion stage_first sound ss in
        subst (λ msgs. IsConvened a s (effects (handle_all parse stringify msgs a)))
          (sym (submitted a n v))
          (handle_all-IsConvened a s
            (app_run-IsWired ss (new_app reduced_motion stage_first sound)
              (new-IsWired reduced_motion))
            l v)
