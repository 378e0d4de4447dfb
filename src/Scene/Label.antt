-- ===== src/Scene/Label.antt =====
-- A persona's floating label, frontend/src/three/PersonaLabel.tsx. `reveal` is what `useSmoothText`
-- shows of a text.
use council.Prelude.{Bool, true, false, ◌&&◌, [], ◌∷◌, ◌++◌, Text, text}
use council.Ui.Html.{Html, Tag, el, says, aria_hidden}
use council.Ui.Html
use council.Ui.QuestionForm.{is_filled}
use council.Ui.Transcript.{typing_indicator}
use council.Stage.Bubble.{BubbleMode, PersonaBubble}
use council.Scene.Three.{Three}
use council.Scene.Seating.{Place}
use council.Scene.Tree.{Scene, position, label, nothing}

-- `bubble.mode !== "nameplate"`.
abbrev pub has_text : BubbleMode → Bool
has_text BubbleMode.nameplate = false
has_text _ = true

module _ {M : Type 0} (reveal : Text → Bool → Text) where
  -- The content: the nameplate, and the bubble while there is a text.
  unfoldable pub label_content : PersonaBubble → Html M
  unfolding typing_indicator
  label_content bubble =
      let revealed : Text = reveal bubble.text bubble.streaming in
      el Tag.div (aria_hidden true ∷ []) (
        Html.◌⊹◌
          (el Tag.div [] (
            Html.◌⊹◌ (el Tag.span [] (says bubble.display_name))
              (el Tag.span [] (says bubble.role))))
          (Html.only_if (has_text bubble.mode && is_filled revealed) (
            el Tag.div [] (
              el Tag.p [] (
                Html.◌⊹◌ (says revealed) (
                  Html.only_if bubble.streaming (
                    el Tag.span []
                      (typing_indicator (bubble.display_name ++ text " speaking")))))))))

module _ (t : Three) (reveal : Text → Bool → Text) where
  open t use {Real, part}

  unfoldable pub persona_label : PersonaBubble → Place Real → Scene Real
  unfolding label_content
  persona_label bubble at =
      label (position at.x at.y at.z ∷ []) (part 7 1) (label_content reveal bubble) nothing
