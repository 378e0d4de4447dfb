-- ===== src/Tests/App.antt =====
-- The page's theorems at a first visit in which a question was typed.
use council.Prelude.{
  ◌≡◌, refl, Bool, true, false, not, ◌&&◌, some, inl, inr, List, [], ◌∷◌, Text, text, keep,
  if◌then◌else◌,
}
use council.Protocol.Ask.{build_ask, whole, trim, rune_count}
use council.Reducer.{DebateState, run, debate_reducer}
use council.Client
use council.Player.{feed_status}
use council.Player.Shown.{shown}
use council.Debate.{state_of}
use council.Sound.{UseSound, suspended, use_sound}
use council.Ui.Html.{Html, blank, says, clicks}
use council.Ui.Controls.{live_phases}
use council.Ui.QuestionForm.{submit, is_built}
use council.Ui.Layouts.{StageState, stage_layout}
use council.Ui.StageOffers.{stage_offers, clicks-stage_layout}
use council.App.{
  App, Msg, ask, set_composing, set_drawer, set_form_question, set_form_rounds, AppStep, handles,
  new_app, app_step, app_run, visited, shared, view,
}
use council.App.Asking.{is_asking, stage_form, view-asking}
use council.App.Folded.{visited-folded}
use council.App.Mounted.{is_composing}
use council.App.Convening.{IsConvened, submit-convenes}
use council.Tests.Client.{parse, stringify}
use council.Tests.Sound.{storage}

abbrev reveal : Text → Bool → Text
reveal t animated = t

abbrev markdown : Text → Html Msg
markdown t = says t

abbrev scene : DebateState → Html Msg
scene state = blank

abbrev sound : UseSound
sound = use_sound true suspended storage

abbrev typing : List AppStep
typing =
    handles (set_form_question (text " Is it so? ") ∷ []) ∷ handles (set_form_rounds 4 ∷ []) ∷ []

abbrev opening : StageState
opening = record { composing = true; drawer_open = false }

abbrev page : App
page = app_run parse stringify typing (new_app false true sound)

abbrev page_layout : Html Msg
page_layout =
    stage_layout reveal markdown scene (λ b. set_composing b ∷ []) (λ b. set_drawer b ∷ [])
      (shared page) opening

clicks-stage_layout_example :
    clicks page_layout
    ≡ stage_offers reveal markdown scene
        (λ b. set_composing b ∷ [])
        (λ b. set_drawer b ∷ [])
        (shared page)
        opening
unfolding clicks
clicks-stage_layout_example =
    clicks-stage_layout reveal markdown (λ t. refl) scene (λ s. refl) (λ b. set_composing b ∷ [])
      (λ b. set_drawer b ∷ []) (shared page) opening

view-asking_example : keep is_asking (clicks (view reveal markdown scene page)) ≡ (
    if true
      && (is_built (build_ask page.form_question (some (whole page.form_rounds)))
          && not (live_phases (state_of page.debate).phase))
    then (set_composing false ∷ ask (trim page.form_question) page.form_rounds ∷ []) ∷ []
    else [])
unfolding clicks app_run shown run
view-asking_example = view-asking reveal markdown scene (λ t. refl) (λ s. refl) page opening refl

submit-convenes_example :
    IsConvened page opening
      (app_step parse stringify (handles (submit (stage_form reveal markdown scene page))) page)
unfolding app_run build_ask shown run rune_count
submit-convenes_example =
    submit-convenes parse stringify reveal markdown scene false true sound typing opening refl refl
      refl

-- The question is typed and its form submitted by a key.
abbrev asking : List AppStep
asking =
    handles (set_form_question (text " Is it so? ") ∷ [])
    ∷ handles (set_form_rounds 4 ∷ [])
    ∷ handles (submit (stage_form reveal markdown scene page))
    ∷ []

visited-folded_example :
    is_composing (visited parse stringify false true sound asking).layout ≡ false
unfolding app_run build_ask shown run rune_count clicks submit Client.ask feed_status debate_reducer
visited-folded_example =
    visited-folded parse stringify reveal markdown scene (λ t. refl) (λ s. refl) false true sound
      asking
      (
        inr (inr (inl (text " Is it so? ", refl))),
        (inr (inr (inr (4, refl))), (inr (inl refl), tt)),
      )
      refl
