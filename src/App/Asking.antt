-- ===== src/App/Asking.antt =====
-- How the page asks, from the form on the stage to the state on the screen.
use council.Prelude.{
  ◌≡◌, refl, ap, ◌∙◌, Bool, true, false, not, ◌&&◌, none, some, List, [], ◌∷◌, ◌++◌, Text,
  if◌then◌else◌, Bool-cases, inl, inr, keep, append-nil,
}
use council.Protocol.Ask.{build_ask, whole, trim}
use council.Reducer.{DebateState}
use council.Debate.{state_of, is_at_live}
use council.Ui.Html.{Html, clicks}
use council.Ui.Controls.{live_phases}
use council.Ui.QuestionForm.{QuestionFormProps, submit, is_built, is_filled}
use council.Ui.Layouts.{StageState, form_props, stage_ask, stage_layout, mobile_layout}
use council.Ui.Offers.{when, playback_offers, form_offers, overlay_form}
use council.Ui.StageOffers.{clicks-stage_layout}
use council.App.{
  App, stage, mobile, Msg, ask, set_composing, set_drawer, set_rate, go_to_live, stop, toggle_sound,
  dismiss_verdict, shared, view,
}

-- A handler that asks.
abbrev pub is_asking : List Msg → Bool
is_asking [] = false
is_asking (ask q r ∷ msgs) = true
is_asking (_ ∷ msgs) = is_asking msgs

keep-append :
    (xs ys : List (List Msg)) → keep is_asking (xs ++ ys) ≡ keep is_asking xs ++ keep is_asking ys
keep-append [] ys = refl
keep-append (x ∷ xs) ys = elim (Bool-cases (is_asking x)) [
  | inl e ↦ rw e (ap (◌∷◌ x) (keep-append xs ys))
  | inr e ↦ rw e (keep-append xs ys)
]

-- Handlers that do not ask, before the others.
skips-keep :
    (xs ys : List (List Msg))
    → keep is_asking xs ≡ []
    → keep is_asking (xs ++ ys) ≡ keep is_asking ys
skips-keep xs ys e = keep-append xs ys ∙ ap (λ l. l ++ keep is_asking ys) e

when_silent :
    (b : Bool) (hs : List (List Msg)) → keep is_asking hs ≡ [] → keep is_asking (when b hs) ≡ []
when_silent true hs e = e
when_silent false hs e = refl

module _ (reveal : Text → Bool → Text) (markdown : Text → Html Msg)
    (debate_stage : DebateState → Html Msg) where
  -- The props of the stage's form.
  abbrev pub stage_form : App → QuestionFormProps Msg
  stage_form a =
      form_props (shared a)
        (stage_ask reveal markdown debate_stage (λ b. set_composing b ∷ []) (λ b. set_drawer b ∷ [])
          (shared a))
        none

  form_asking :
      (a : App)
      → keep is_asking (form_offers (overlay_form (stage_form a)))
        ≡ when
            (is_built (build_ask a.form_question (some (whole a.form_rounds)))
              && not (live_phases (state_of a.debate).phase))
            ((set_composing false ∷ ask (trim a.form_question) a.form_rounds ∷ []) ∷ [])
  unfolding submit
  form_asking a = elim (Bool-cases (live_phases (state_of a.debate).phase)) [
    | inl e ↦
        elim (Bool-cases (is_built (build_ask a.form_question (some (whole a.form_rounds))))) [
          | inl b ↦ rw (e, b) refl
          | inr b ↦ rw (e, b) refl
        ]
    | inr e ↦
        elim (Bool-cases (is_built (build_ask a.form_question (some (whole a.form_rounds))))) [
          | inl b ↦ rw (e, b) refl
          | inr b ↦ rw (e, b) refl
        ]
  ]

  shown_form_asking :
      (composing : Bool) (a : App)
      → keep is_asking (when composing (form_offers (overlay_form (stage_form a))))
        ≡ when
            (composing
              && (is_built (build_ask a.form_question (some (whole a.form_rounds)))
                  && not (live_phases (state_of a.debate).phase)))
            ((set_composing false ∷ ask (trim a.form_question) a.form_rounds ∷ []) ∷ [])
  shown_form_asking true a = form_asking a
  shown_form_asking false a = refl

  -- What follows the form.
  rest_silent :
      (live at_live composing drawer : Bool)
      → keep is_asking (
          playback_offers live (λ r. set_rate r ∷ []) at_live (go_to_live ∷ [])
          ++ (when live ((stop ∷ []) ∷ [])
              ++ (when (not live && not composing) ((set_composing true ∷ []) ∷ [])
                  ++ ((set_drawer (not drawer) ∷ [])
                      ∷ (toggle_sound ∷ [])
                      ∷ when drawer ((set_drawer false ∷ []) ∷ [])))))
        ≡ []
  rest_silent true true composing true = refl
  rest_silent true true composing false = refl
  rest_silent true false composing true = refl
  rest_silent true false composing false = refl
  rest_silent false at_live true true = refl
  rest_silent false at_live true false = refl
  rest_silent false at_live false true = refl
  rest_silent false at_live false false = refl

  -- If the markdown and the scene have no handlers of clicks, then on the stage exactly one click asks,
  -- the form's submit, and it is offered exactly while the form is open, the session is not live and
  -- buildAsk accepts what the form holds; it folds the form away and asks the trimmed question for the
  -- chosen rounds.
  pub view-asking :
      ((t : Text) → clicks (markdown t) ≡ [])
      → ((s : DebateState) → clicks (debate_stage s) ≡ [])
      → (a : App) (s : StageState) → a.layout ≡ stage s
      → keep is_asking (clicks (view reveal markdown debate_stage a)) ≡ (
          if s.composing
            && (is_built (build_ask a.form_question (some (whole a.form_rounds)))
                && not (live_phases (state_of a.debate).phase))
          then (set_composing false ∷ ask (trim a.form_question) a.form_rounds ∷ []) ∷ []
          else [])
  unfolding view
  view-asking inert still a s e =
      let live : Bool = live_phases (state_of a.debate).phase in
      let desk : List (List Msg) =
        when (is_filled (trim a.question) && not live) ((set_composing true ∷ []) ∷ []) in
      let form : List (List Msg) = when s.composing (form_offers (overlay_form (stage_form a))) in
      let rest : List (List Msg) =
        playback_offers live (λ r. set_rate r ∷ []) (is_at_live a.debate) (go_to_live ∷ [])
        ++ (when live ((stop ∷ []) ∷ [])
            ++ (when (not live && not s.composing) ((set_composing true ∷ []) ∷ [])
                ++ ((set_drawer (not s.drawer_open) ∷ [])
                    ∷ (toggle_sound ∷ [])
                    ∷ when s.drawer_open ((set_drawer false ∷ []) ∷ [])))) in
      ap
        (λ l. keep is_asking (
          clicks (elim l [
            | stage s ↦
                stage_layout reveal markdown debate_stage (λ b. set_composing b ∷ [])
                  (λ b. set_drawer b ∷ []) (shared a) s
            | mobile spotlight ↦
                mobile_layout reveal markdown (dismiss_verdict ∷ []) (shared a) spotlight
          ])))
        e
      ∙ (ap (keep is_asking) (
            clicks-stage_layout reveal markdown inert debate_stage still (λ b. set_composing b ∷ [])
              (λ b. set_drawer b ∷ []) (shared a) s)
          ∙ (skips-keep desk (form ++ rest) (
                when_silent (is_filled (trim a.question) && not live)
                  ((set_composing true ∷ []) ∷ []) refl)
              ∙ (keep-append form rest
                  ∙ (ap (λ l. keep is_asking form ++ l)
                        (rest_silent live (is_at_live a.debate) s.composing s.drawer_open)
                      ∙ (append-nil (keep is_asking form) ∙ shown_form_asking s.composing a)))))
