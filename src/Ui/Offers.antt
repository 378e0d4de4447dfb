-- ===== src/Ui/Offers.antt =====
-- What a viewer can click, in the views' own terms: lists of handlers.
use council.Prelude.{
  ℕ, ◌≡◌, refl, ap, ◌∙◌, Bool, true, false, not, ◌&&◌, Option, none, some, List, [], ◌∷◌, ◌++◌, map,
  append-nil, Text, text, if◌then◌else◌, Bool-cases, inl, inr,
}
use council.Protocol.Ask.{build_ask, whole, trim, rune_count, max_question_runes}
use council.Reducer.{DebatePhase, DebateState}
use council.Player.State.{Fraction}
use council.Ui.Html.{
  Html, Tag, Attr, blank, element, el, says, only_if, each, ◌⊹◌, clicks, clicks-⊹, is_inert,
  is_disabled, click_handlers,
}
use council.Ui.Decimal.{decimal}
use council.Ui.Controls.{
  live_phases, rate_presets, topic_presets, playback_controls, sound_toggle, rounds_selector,
  seat_indicator, topic_preset_chips,
}
use council.Ui.QuestionForm.{
  QuestionFormProps, question_form, submit, is_built, is_filled, error_of, optional_toggle,
}
use council.Ui.Overlay.{StageControlsProps, stage_controls, question_overlay, docket}
use council.Stage.Bubble.{display_name}
use council.Ui.Status.{
  status_text, connection_status, error_banner, stage_announcer, persona_failures, is_error,
}

module _ {M : Type 0} where
  abbrev pub when : Bool → List (List M) → List (List M)
  when b hs = if b then hs else []

  abbrev pub playback_offers : Bool → (Fraction → List M) → Bool → List M → List (List M)
  playback_offers live on_set_rate is_at_live on_go_to_live =
      when live
        (map (λ r. on_set_rate r.0) rate_presets ++ when (not is_at_live) (on_go_to_live ∷ []))

  clicks-playback_controls :
      (phase : DebatePhase) (rate : Fraction) (on_set_rate : Fraction → List M) (is_at_live : Bool)
      (on_go_to_live : List M)
      → clicks (playback_controls phase rate on_set_rate is_at_live on_go_to_live)
        ≡ playback_offers (live_phases phase) on_set_rate is_at_live on_go_to_live
  unfolding clicks playback_controls
  clicks-playback_controls phase rate on_set_rate is_at_live on_go_to_live =
      elim (Bool-cases (live_phases phase)) [
        | inl e ↦ elim (Bool-cases is_at_live) [ inl h ↦ rw (e, h) refl | inr h ↦ rw (e, h) refl ]
        | inr e ↦ rw e refl
      ]

  abbrev pub toggle_offers : Option (Bool × List M) → List (List M)
  toggle_offers none = []
  toggle_offers (some (enabled, on_toggle)) = on_toggle ∷ []

  abbrev pub form_offers : QuestionFormProps M → List (List M)
  form_offers p =
      let live : Bool = live_phases p.phase in
      when (not live) (map (λ preset. p.on_question preset.question) topic_presets)
      ++ (when (is_built (build_ask p.question (some (whole p.rounds))) && not live) (submit p ∷ [])
          ++ (when live (p.on_stop ∷ []) ++ toggle_offers p.toggle))

  no_clicks :
      (inert off : Bool)
      → ◌≡◌ {A = List (List M)} ((if inert then [] else (if off then [] else []) ++ []) ++ []) []
  no_clicks true off = refl
  no_clicks false true = refl
  no_clicks false false = refl

  form_tail :
      (o : Option (Bool × List M)) (count : Html M) (b : Bool) (attrs : List (Attr M))
      (message : Text)
      → click_handlers attrs ≡ []
      → clicks count ≡ []
      → clicks (
          optional_toggle o ⊹ element Tag.span [] count (only_if b (el Tag.p attrs (says message))))
        ≡ toggle_offers o
  unfolding clicks sound_toggle
  form_tail none count true attrs message a c =
      rw (c, a) (no_clicks (is_inert attrs) (is_disabled attrs))
  form_tail none count false attrs message a c = rw c refl
  form_tail (some (enabled, on_toggle)) count true attrs message a c =
      rw (c, a) (ap (◌∷◌ on_toggle) (no_clicks (is_inert attrs) (is_disabled attrs)))
  form_tail (some (enabled, on_toggle)) count false attrs message a c = rw c refl

  form_end :
      (p : QuestionFormProps M) (b : Bool)
      → clicks (
            optional_toggle p.toggle
            ⊹ element Tag.span []
                (says
                  (decimal (rune_count p.question) ++ (text " / " ++ decimal max_question_runes)))
                (only_if b (
                  el Tag.p
                    (Attr.role (text "alert") ∷ [])
                    (says (error_of (build_ask p.question (some (whole p.rounds))))))))
          ++ []
        ≡ toggle_offers p.toggle
  unfolding clicks
  form_end p b =
      append-nil _
      ∙ form_tail p.toggle
          (says (decimal (rune_count p.question) ++ (text " / " ++ decimal max_question_runes))) b
          (Attr.role (text "alert") ∷ []) (error_of (build_ask p.question (some (whole p.rounds))))
          refl refl

  abbrev presets : QuestionFormProps M → List (List M) → List (List M)
  presets p l = map (λ preset. p.on_question preset.question) topic_presets ++ l

  pub clicks-question_form : (p : QuestionFormProps M) → clicks (question_form p) ≡ form_offers p
  unfolding clicks question_form topic_preset_chips rounds_selector sound_toggle seat_indicator
  clicks-question_form p = elim (Bool-cases (live_phases p.phase)) [
    | inl e ↦ elim (Bool-cases (is_built (build_ask p.question (some (whole p.rounds))))) [
      | inl b ↦ rw (e, b) (ap (◌∷◌ p.on_stop) (form_end p false))
      | inr b ↦ rw (e, b) (ap (◌∷◌ p.on_stop) (form_end p (is_filled (trim p.question))))
    ]
    | inr e ↦ elim (Bool-cases (is_built (build_ask p.question (some (whole p.rounds))))) [
      | inl b ↦
          rw (e, b)
            (ap (λ l. presets p (p.on_ask (trim p.question) p.rounds ∷ l)) (form_end p false))
      | inr b ↦ rw (e, b) (ap (presets p) (form_end p (is_filled (trim p.question))))
    ]
  ]

  abbrev pub controls_offers : StageControlsProps M → List (List M)
  controls_offers p =
      let live : Bool = live_phases p.phase in
      playback_offers live p.on_set_rate p.is_at_live p.on_go_to_live
      ++ (when live (p.on_stop ∷ [])
          ++ (when (not live && not p.composing) (p.on_ask_another ∷ [])
              ++ p.on_toggle_drawer ∷ p.on_toggle_sound ∷ []))

  pub clicks-stage_controls :
      (p : StageControlsProps M) → clicks (stage_controls p) ≡ controls_offers p
  unfolding clicks stage_controls sound_toggle playback_controls
  clicks-stage_controls p = elim (Bool-cases (live_phases p.phase)) [
    | inl e ↦ elim (Bool-cases p.is_at_live) [ inl h ↦ rw (e, h) refl | inr h ↦ rw (e, h) refl ]
    | inr e ↦ elim (Bool-cases p.composing) [ inl h ↦ rw (e, h) refl | inr h ↦ rw (e, h) refl ]
  ]

  -- The form of the overlay: no toggle, and a stop that does nothing.
  abbrev pub overlay_form : QuestionFormProps M → QuestionFormProps M
  overlay_form p = record p { on_stop = []; toggle = none }

  wrapped : (hs : List (List M)) → ((hs ++ []) ++ []) ++ [] ≡ hs
  wrapped hs =
      ap (λ l. (l ++ []) ++ []) (append-nil hs)
      ∙ (ap (λ l. l ++ []) (append-nil hs) ∙ append-nil hs)

  pub clicks-question_overlay :
      (visible : Bool) (p : QuestionFormProps M)
      → clicks (question_overlay visible p) ≡ when visible (form_offers (overlay_form p))
  unfolding clicks question_overlay
  clicks-question_overlay true p =
      wrapped (clicks (question_form (overlay_form p))) ∙ clicks-question_form (overlay_form p)
  clicks-question_overlay false p = refl

  pub clicks-connection_status :
      (phase : DebatePhase) (current rounds : ℕ)
      → clicks {M = M} (connection_status phase current rounds) ≡ []
  unfolding clicks connection_status
  clicks-connection_status phase current rounds =
      elim (status_text phase current rounds)
        as (λ o.
          clicks {M = M} (elim o [
            | none ↦ blank
            | some t ↦
                el Tag.p (Attr.role (text "status") ∷ Attr.live (text "polite") ∷ [])
                  (el Tag.span (Attr.aria_hidden true ∷ []) blank ⊹ says t)
          ])
          ≡ []) [ none ↦ refl | some t ↦ refl ]

  pub clicks-docket :
      (question : Text) (phase : DebatePhase) (current rounds : ℕ) (on_edit : List M) (off : Bool)
      → clicks (docket question phase current rounds on_edit off)
        ≡ when (is_filled (trim question) && not off) (on_edit ∷ [])
  unfolding clicks docket
  clicks-docket question phase current rounds on_edit off =
      elim (Bool-cases (is_filled (trim question))) [
        | inl e ↦ elim (Bool-cases off) [
          | inl h ↦ rw (e, h, clicks-connection_status phase current rounds) refl
          | inr h ↦ rw (e, h, clicks-connection_status phase current rounds) refl
        ]
        | inr e ↦ rw e refl
      ]

  pub each_dead :
      {A : Type 0} (f : A → Html M)
      → ((x : A) → clicks (f x) ≡ [])
      → (xs : List A) → clicks (each f xs) ≡ []
  unfolding clicks
  each_dead f h [] = refl
  each_dead f h (x ∷ xs) =
      clicks-⊹ (f x) (each f xs) ∙ (ap (λ l. l ++ clicks (each f xs)) (h x) ∙ each_dead f h xs)

  pub clicks-error_banner : (state : DebateState) → clicks {M = M} (error_banner state) ≡ []
  unfolding clicks error_banner
  clicks-error_banner state = elim (Bool-cases (is_error state.phase)) [
    | inl e ↦ rw e refl
    | inr e ↦ rw e refl
  ]

  pub clicks-stage_announcer : (state : DebateState) → clicks {M = M} (stage_announcer state) ≡ []
  unfolding clicks stage_announcer
  clicks-stage_announcer state =
      ap (λ l. (l ++ []) ++ [])
        (each_dead
          (λ f. el Tag.p [] (says (display_name f.0 ++ (text "’s response failed: " ++ f.1))))
          (λ f. refl) (persona_failures state.errors))
