-- ===== src/App/Handlers.antt =====
-- What the stage's handlers can do to its form: each either leaves it alone, opens it while no
-- session is live, or folds it away and asks.
use council.Prelude.{
  ◌≡◌, refl, Bool, true, false, not, ◌&&◌, ◌⊎◌, inl, inr, some, List, [], ◌∷◌, ◌++◌, map, Text, ℕ,
  if◌then◌else◌,
}
use council.Protocol.Ask.{build_ask, whole, trim}
use council.Reducer.{DebateState}
use council.Debate.{state_of, is_at_live}
use council.Ui.Html.{Html}
use council.Ui.Controls.{live_phases, rate_presets, topic_presets}
use council.Ui.QuestionForm.{submit, is_built, is_filled}
use council.Ui.Layouts.{StageState}
use council.Ui.Offers.{when, form_offers, overlay_form}
use council.Ui.StageOffers.{stage_offers}
use council.App.{
  App, Msg, ask, set_composing, set_drawer, set_rate, go_to_live, set_form_question, shared,
}
use council.App.Asking.{stage_form}

-- A message that neither asks nor opens the form.
abbrev pub IsPlain : Msg → Type 0
IsPlain (ask q r) = ⊥
IsPlain (set_composing b) = b ≡ false
IsPlain _ = Unit {0}

abbrev pub AllPlain : List Msg → Type 0
AllPlain [] = Unit {0}
AllPlain (msg ∷ msgs) = IsPlain msg × AllPlain msgs

pub data IsGuarded (live : Bool) (msgs : List Msg) : Type 0 where
  plain : AllPlain msgs → IsGuarded live msgs
  opens : live ≡ false → msgs ≡ set_composing true ∷ [] → IsGuarded live msgs
  asks : (q : Text) (r : ℕ) → msgs ≡ set_composing false ∷ ask q r ∷ [] → IsGuarded live msgs

abbrev pub AllGuarded : Bool → List (List Msg) → Type 0
AllGuarded live [] = Unit {0}
AllGuarded live (msgs ∷ rest) = IsGuarded live msgs × AllGuarded live rest

-- An offer is one of a list.
abbrev pub IsAmong : List Msg → List (List Msg) → Type 0
IsAmong msgs [] = ⊥
IsAmong msgs (x ∷ xs) = (x ≡ msgs) ⊎ IsAmong msgs xs

AllGuarded-append :
    (live : Bool) (xs ys : List (List Msg))
    → AllGuarded live xs
    → AllGuarded live ys
    → AllGuarded live (xs ++ ys)
AllGuarded-append live [] ys h k = k
AllGuarded-append live (x ∷ xs) ys (h, hs) k = (h, AllGuarded-append live xs ys hs k)

when-AllGuarded :
    (live b : Bool) (xs : List (List Msg))
    → (b ≡ true → AllGuarded live xs)
    → AllGuarded live (when b xs)
when-AllGuarded live true xs h = h refl
when-AllGuarded live false xs h = tt

map-AllGuarded {ℓ} :
    {A : Type ℓ} (live : Bool) (f : A → List Msg) (xs : List A)
    → ((x : A) → IsGuarded live (f x))
    → AllGuarded live (map f xs)
map-AllGuarded live f [] h = tt
map-AllGuarded live f (x ∷ xs) h = (h x, map-AllGuarded live f xs h)

pub IsAmong-IsGuarded :
    (live : Bool) (msgs : List Msg) (xs : List (List Msg))
    → AllGuarded live xs
    → IsAmong msgs xs
    → IsGuarded live msgs
IsAmong-IsGuarded live msgs [] h m = elim m [ ]
IsAmong-IsGuarded live msgs (x ∷ xs) h (inl e) = rw (← e) h.0
IsAmong-IsGuarded live msgs (x ∷ xs) h (inr m) = IsAmong-IsGuarded live msgs xs h.1 m

-- One of the two tests of a conjunction with a negation.
not_live : (b live : Bool) → (b && not live) ≡ true → live ≡ false
not_live true false e = refl
not_live true true e = cc
not_live false live e = cc

not_live_first : (live b : Bool) → (not live && b) ≡ true → live ≡ false
not_live_first false b e = refl
not_live_first true b e = cc

-- What a form's submit may be.
chosen :
    (b live : Bool) (q : Text) (r : ℕ)
    → IsGuarded live (if b then set_composing false ∷ ask q r ∷ [] else [])
chosen true live q r = asks q r refl
chosen false live q r = plain tt

module _ (reveal : Text → Bool → Text) (markdown : Text → Html Msg)
    (debate_stage : DebateState → Html Msg) where
  pub submit-IsGuarded :
      (a : App)
      → IsGuarded
          (live_phases (state_of a.debate).phase)
          (submit (stage_form reveal markdown debate_stage a))
  unfolding submit
  submit-IsGuarded a =
      chosen
        (is_built (build_ask a.form_question (some (whole a.form_rounds)))
          && not (live_phases (state_of a.debate).phase))
        (live_phases (state_of a.debate).phase) (trim a.form_question) a.form_rounds

  form-AllGuarded :
      (a : App)
      → AllGuarded
          (live_phases (state_of a.debate).phase)
          (form_offers (overlay_form (stage_form reveal markdown debate_stage a)))
  unfolding submit
  form-AllGuarded a =
      let live : Bool = live_phases (state_of a.debate).phase in
      let accepted : Bool = is_built (build_ask a.form_question (some (whole a.form_rounds))) in
      AllGuarded-append live _ _
        (when-AllGuarded live (not live) _ (λ e.
          map-AllGuarded live (λ preset. set_form_question preset.question ∷ []) topic_presets
            (λ x. plain (tt, tt))))
        (AllGuarded-append live _ _
          (when-AllGuarded live (accepted && not live) _ (λ e. (submit-IsGuarded a, tt)))
          (AllGuarded-append live _ [] (when-AllGuarded live live ([] ∷ []) (λ e. (plain tt, tt)))
            tt))

  pub stage_offers-AllGuarded :
      (a : App) (s : StageState)
      → AllGuarded (live_phases (state_of a.debate).phase) (
          stage_offers reveal markdown debate_stage
            (λ b. set_composing b ∷ [])
            (λ b. set_drawer b ∷ [])
            (shared a)
            s)
  stage_offers-AllGuarded a s =
      let live : Bool = live_phases (state_of a.debate).phase in
      AllGuarded-append live _ _
        (when-AllGuarded live (is_filled (trim a.question) && not live) _
          (λ e. (opens (not_live _ live e) refl, tt)))
        (AllGuarded-append live _ _ (when-AllGuarded live s.composing _ (λ e. form-AllGuarded a)) (
          AllGuarded-append live _ _
            (when-AllGuarded live live _ (λ e.
              AllGuarded-append live (map (λ x. set_rate x.0 ∷ []) rate_presets) _
                (map-AllGuarded live (λ x. set_rate x.0 ∷ []) rate_presets (λ x. plain (tt, tt)))
                (when-AllGuarded live (not (is_at_live a.debate)) ((go_to_live ∷ []) ∷ [])
                  (λ e. (plain (tt, tt), tt)))))
            (AllGuarded-append live _ _ (when-AllGuarded live live _ (λ e. (plain (tt, tt), tt))) (
              AllGuarded-append live _ _
                (when-AllGuarded live (not live && not s.composing) _
                  (λ e. (opens (not_live_first live _ e) refl, tt)))
                (
                  plain (tt, tt),
                  (
                    plain (tt, tt),
                    when-AllGuarded live s.drawer_open _ (λ e. (plain (tt, tt), tt)),
                  ),
                )))))
