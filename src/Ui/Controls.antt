-- ===== src/Ui/Controls.antt =====
-- The small controls, frontend/src/components/controls: SoundToggle, RoundsSelector, SeatIndicator,
-- TopicPresets with frontend/src/data/topicPresets.ts, and PlaybackControls.
use council.Prelude.{
  ℕ, zero, suc, ◌+◌, ◌-◌, ◌*◌, ◌/◌, Bool, true, false, not, List, [], ◌∷◌, ◌++◌, Text, text, nat_eq,
  length, if◌then◌else◌,
}
use council.Persona.{PersonaId, panelists, moderator_id}
use council.Protocol.{max_rounds}
use council.Protocol.Ask.{min_rounds}
use council.Reducer.{DebatePhase}
use council.Player.State.{Fraction, fraction}
use council.Stage.Bubble.{display_name, role}
use council.Ui.Html.{
  Html, Tag, Attr, blank, el, says, each, only_if, ◌⊹◌, on_click, on_change, disabled, pressed,
  aria_label, title, value,
}
use council.Ui.Decimal.{decimal, number_of}

-- `LIVE_PHASES.has(phase)`, a constant of several components.
abbrev pub live_phases : DebatePhase → Bool
live_phases DebatePhase.connecting = true
live_phases DebatePhase.debating = true
live_phases DebatePhase.moderating = true
live_phases _ = false

-- `Array.from({ length: n }, (_, i) => first + i * 2)`.
abbrev pub round_options_from : ℕ → ℕ → List ℕ
round_options_from zero first = []
round_options_from (suc n) first = first ∷ round_options_from n (first + 2)

abbrev pub round_options : List ℕ
round_options = round_options_from ((max_rounds - min_rounds) / 2 + 1) min_rounds

abbrev pub seats : List PersonaId
seats = panelists ++ moderator_id ∷ []

pub record TopicPreset : Type 0 where
  pub preset_label : Text
  pub question : Text

abbrev pub topic_presets : List TopicPreset
topic_presets =
    record {
      preset_label = text "Four-day week";
      question = text "Should companies switch to a four-day work week?";
    }
    ∷ record {
      preset_label = text "Remote-first";
      question = text "Should a growing startup stay remote-first or require an office?";
    }
    ∷ record {
      preset_label = text "AI code review";
      question = text "Should AI-generated code be allowed to merge without a human review?";
    }
    ∷ record {
      preset_label = text "Universal basic income";
      question = text "Would a universal basic income do more good than harm?";
    }
    ∷ []

-- A preset rate with what its button shows before the "x".
abbrev pub rate_presets : List (Fraction × Text)
rate_presets =
    (fraction 1 2, text "0.5")
    ∷ (fraction 1 1, text "1")
    ∷ (fraction 3 2, text "1.5")
    ∷ (fraction 2 1, text "2")
    ∷ []

-- `===` on two rates.
abbrev pub same_rate : Fraction → Fraction → Bool
same_rate a b = nat_eq (a.num * b.den) (b.num * a.den)

module _ {M : Type 0} where
  unfoldable pub sound_toggle : Bool → List M → Html M
  sound_toggle enabled on_toggle =
      let says_now : Text = if enabled then text "Mute sound" else text "Unmute sound" in
      el Tag.button
        (on_click on_toggle ∷ pressed enabled ∷ aria_label says_now ∷ title says_now ∷ []) blank

  unfoldable pub rounds_selector : ℕ → (ℕ → List M) → Bool → Html M
  rounds_selector current on_rounds is_off = el Tag.label [] (
      el Tag.span [] (says (text "Rounds"))
      ⊹ el Tag.select
          (value (decimal current)
            ∷ disabled is_off
            ∷ on_change (λ s. on_rounds (number_of s))
            ∷ [])
          (each (λ r. el Tag.option (value (decimal r) ∷ []) (says (decimal r))) round_options))

  unfoldable pub seat_indicator : Html M
  seat_indicator = el Tag.div [] (
      el Tag.div (Attr.role (text "group") ∷ aria_label (text "Council seats") ∷ []) (
        each
          (λ id.
            let name : Text = display_name id ++ (text " — " ++ role id) in
            el Tag.span (Attr.role (text "img") ∷ title name ∷ aria_label name ∷ []) blank)
          seats)
      ⊹ el Tag.span []
          (says (text "Council · " ++ (decimal (length seats) ++ text " seats ready"))))

  unfoldable pub topic_preset_chips : (Text → List M) → Bool → Html M
  topic_preset_chips on_pick is_off =
      el Tag.div (Attr.role (text "group") ∷ aria_label (text "Example questions") ∷ []) (
        each
          (λ preset.
            el Tag.button (disabled is_off ∷ on_click (on_pick preset.question) ∷ [])
              (says preset.preset_label))
          topic_presets)

  unfoldable pub playback_controls :
      DebatePhase → Fraction → (Fraction → List M) → Bool → List M → Html M
  playback_controls phase rate on_set_rate is_at_live on_go_to_live = only_if (live_phases phase) (
      el Tag.div [] (
        el Tag.div (Attr.role (text "group") ∷ aria_label (text "Playback speed") ∷ []) (
          each
            (λ preset.
              el Tag.button
                (on_click (on_set_rate preset.0) ∷ pressed (same_rate rate preset.0) ∷ [])
                (says (preset.1 ++ text "x")))
            rate_presets)
        ⊹ only_if (not is_at_live)
            (el Tag.button (on_click on_go_to_live ∷ []) (says (text "Go to live")))))
