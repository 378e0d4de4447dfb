-- ===== src/Ui/StageOffers.antt =====
-- What a viewer can click on the stage.
use council.Prelude.{
  ◌≡◌, refl, ap, ◌∙◌, Bool, true, false, not, ◌&&◌, none, List, [], ◌∷◌, ◌++◌, append-nil,
  append_assoc, Text, text, if◌then◌else◌, ℕ-Key,
}
use council.Persona.{PersonaId-Key}
use council.Protocol.Ask.{trim}
use council.Reducer.{DebateState}
use council.Ui.Html.{Html, Tag, el, says, ◌⊹◌, clicks, clicks-⊹}
use council.Ui.Controls.{live_phases}
use council.Ui.QuestionForm.{QuestionFormProps, is_filled}
use council.Ui.Overlay.{StageControlsProps, docket, question_overlay, stage_controls}
use council.Ui.Status.{error_banner, stage_announcer}
use council.Ui.Transcript.{transcript_drawer}
use council.Ui.Layouts.{LayoutProps, StageState, form_props, stage_ask, stage_layout}
use council.Ui.Offers.{
  when, form_offers, overlay_form, playback_offers, clicks-stage_controls, clicks-question_overlay,
  clicks-docket, clicks-error_banner, clicks-stage_announcer,
}
use council.Ui.TranscriptOffers.{clicks-transcript_drawer}

module _ {M : Type 0} where
  -- The forests that the stage's layout puts together.
  stage_frame :
      (announcer scene desk errors overlay controls drawer : Html M)
      → clicks (
          el Tag.main [] (
            announcer
            ⊹ (el Tag.div [] scene
                ⊹ (el Tag.div [] (el Tag.span [] (says (text "Council")) ⊹ el Tag.div [] desk)
                    ⊹ (el Tag.div [] (el Tag.div [] errors)
                        ⊹ (overlay ⊹ (el Tag.div [] controls ⊹ drawer)))))))
        ≡ clicks announcer
          ++ (clicks scene
              ++ (clicks desk
                  ++ (clicks errors ++ (clicks overlay ++ (clicks controls ++ clicks drawer)))))
  unfolding clicks
  stage_frame announcer scene desk errors overlay controls drawer =
      append-nil _
      ∙ (clicks-⊹ announcer _
          ∙ ap (λ l. clicks announcer ++ (clicks scene ++ l))
              (ap
                  (λ l.
                    (l
                      ++ ((clicks errors ++ [])
                          ++ clicks (overlay ⊹ (el Tag.div [] controls ⊹ drawer)))))
                  (append-nil (clicks desk))
                ∙ ap (λ l. clicks desk ++ l)
                    (ap (λ l. l ++ clicks (overlay ⊹ (el Tag.div [] controls ⊹ drawer)))
                        (append-nil (clicks errors))
                      ∙ ap (λ l. clicks errors ++ l)
                          (clicks-⊹ overlay (el Tag.div [] controls ⊹ drawer)))))

  joined : {a b c d : List (List M)} → a ≡ b → c ≡ d → a ++ c ≡ b ++ d
  joined {b = b} {c = c} p q = ap (λ l. l ++ c) p ∙ ap (λ l. b ++ l) q

  -- A handler that does nothing while the session is live, where it is offered only if it is not.
  guarded :
      (live b : Bool) (h : List M)
      → when (b && not live) ((if live then [] else h) ∷ []) ≡ when (b && not live) (h ∷ [])
  guarded true true h = refl
  guarded true false h = refl
  guarded false b h = refl

  guarded_first :
      (live b : Bool) (h : List M)
      → when (not live && b) ((if live then [] else h) ∷ []) ≡ when (not live && b) (h ∷ [])
  guarded_first true b h = refl
  guarded_first false b h = refl

  regroup :
      (a b c : List (List M)) (x y : List M) (d : List (List M))
      → (a ++ (b ++ (c ++ x ∷ y ∷ []))) ++ d ≡ a ++ (b ++ (c ++ x ∷ y ∷ d))
  regroup a b c x y d =
      append_assoc a (b ++ (c ++ x ∷ y ∷ [])) d
      ∙ ap (λ l. a ++ l)
          (append_assoc b (c ++ x ∷ y ∷ []) d ∙ ap (λ l. b ++ l) (append_assoc c (x ∷ y ∷ []) d))

module _ {M : Type 0} (reveal : Text → Bool → Text) (markdown : Text → Html M)
    (stage : DebateState → Html M) (set_composing set_drawer : Bool → List M) where
  -- The handlers that the stage offers, in the order of the document.
  abbrev pub stage_offers : LayoutProps M → StageState → List (List M)
  stage_offers p s =
      let live : Bool = live_phases p.state.phase in
      when (is_filled (trim p.question) && not live) (set_composing true ∷ [])
      ++ (when s.composing (
            form_offers (
              overlay_form
                (form_props p (stage_ask reveal markdown stage set_composing set_drawer p) none)))
          ++ (playback_offers live p.on_set_rate p.is_at_live p.on_go_to_live
              ++ (when live (p.on_stop ∷ [])
                  ++ (when (not live && not s.composing) (set_composing true ∷ [])
                      ++ (set_drawer (not s.drawer_open)
                          ∷ p.on_toggle_sound
                          ∷ when s.drawer_open (set_drawer false ∷ []))))))

module _ {M : Type 0} (reveal : Text → Bool → Text) where
  module _ (markdown : Text → Html M) (inert : (t : Text) → clicks (markdown t) ≡ []) where
    module _ (stage : DebateState → Html M) (still : (s : DebateState) → clicks (stage s) ≡ [])
        (set_composing set_drawer : Bool → List M) where
      -- If the markdown and the scene have no handlers of clicks, the handlers that a click can reach
      -- on the stage are these, in the document's order: the docket's if a question that is not blank
      -- was asked and the session is not live; the form's while it is open, which are
      -- the presets unless live, the submit unless live if buildAsk accepts, and the stop while live;
      -- while live, one for each
      -- preset rate and, unless the playback is at live, the one that skips to it; the stop's while
      -- live; the one that opens the form while neither live nor composing; the drawer's toggle and
      -- the sound's; and the drawer's closing one while it is open. Links are not handlers.
      pub clicks-stage_layout :
          (p : LayoutProps M) (s : StageState)
          → clicks (stage_layout reveal markdown stage set_composing set_drawer p s)
            ≡ stage_offers reveal markdown stage set_composing set_drawer p s
      unfolding stage_layout
      clicks-stage_layout p s =
          let live : Bool = live_phases p.state.phase in
          let c : StageControlsProps M = record {
            phase = p.state.phase;
            composing = s.composing;
            on_stop = p.on_stop;
            on_ask_another = if live then [] else set_composing true;
            drawer_open = s.drawer_open;
            on_toggle_drawer = set_drawer (not s.drawer_open);
            sound_enabled = p.sound_enabled;
            on_toggle_sound = p.on_toggle_sound;
            rate = p.rate;
            on_set_rate = p.on_set_rate;
            is_at_live = p.is_at_live;
            on_go_to_live = p.on_go_to_live;
          } in
          let form : QuestionFormProps M =
            form_props p (stage_ask reveal markdown stage set_composing set_drawer p) none in
          let desk : Html M =
            docket p.question p.state.phase p.state.current_round p.rounds
              (if live then [] else set_composing true) live in
          let drawer : Html M =
            transcript_drawer reveal markdown p.state s.drawer_open (set_drawer false) in
          stage_frame (stage_announcer p.state) (stage p.state) desk (error_banner p.state)
            (question_overlay s.composing form) (stage_controls c) drawer
          ∙ (joined (clicks-stage_announcer p.state) (
                joined (still p.state) (
                  joined
                    (clicks-docket p.question p.state.phase p.state.current_round p.rounds
                        (if live then [] else set_composing true) live
                      ∙ guarded live (is_filled (trim p.question)) (set_composing true))
                    (joined (clicks-error_banner p.state) (
                      joined (clicks-question_overlay s.composing form) (
                        joined (clicks-stage_controls c) (
                          clicks-transcript_drawer reveal markdown inert p.state s.drawer_open
                            (set_drawer false)))))))
              ∙ ap
                  (λ l.
                    when (is_filled (trim p.question) && not live) (set_composing true ∷ [])
                    ++ (when s.composing (form_offers (overlay_form form)) ++ l))
                  (regroup (playback_offers live p.on_set_rate p.is_at_live p.on_go_to_live)
                      (when live (p.on_stop ∷ []))
                      (when (not live && not s.composing)
                        ((if live then [] else set_composing true) ∷ []))
                      (set_drawer (not s.drawer_open)) p.on_toggle_sound
                      (when s.drawer_open (set_drawer false ∷ []))
                    ∙ ap
                        (λ l.
                          playback_offers live p.on_set_rate p.is_at_live p.on_go_to_live
                          ++ (when live (p.on_stop ∷ [])
                              ++ (l
                                  ++ (set_drawer (not s.drawer_open)
                                      ∷ p.on_toggle_sound
                                      ∷ when s.drawer_open (set_drawer false ∷ [])))))
                        (guarded_first live (not s.composing) (set_composing true))))
