-- ===== src/Ui/Verdict.antt =====
-- The verdict's dialog, frontend/src/components/verdict/VerdictPanel.tsx, and the masthead,
-- frontend/src/components/Header.tsx. `reveal` is what `useSmoothText` shows of a text, and
-- `markdown` is react-markdown's rendering.
use council.Prelude.{
  ℕ, zero, suc, Bool, true, false, not, Option, none, some, List, [], ◌∷◌, Text, text, nat_eq,
  if◌then◌else◌, ◌&&◌,
}
use council.Ui.Html.{Html, Tag, Attr, blank, el, says, only_if, ◌⊹◌, on_click, aria_label, modal}
use council.Ui.Transcript.{typing_indicator}

-- The phases that the panel is given.
pub data VerdictPhase : Type 0 where
  moderating done : VerdictPhase

-- `phase === "moderating"`.
abbrev pub is_deliberating : VerdictPhase → Bool
is_deliberating moderating = true
is_deliberating done = false

-- A key that the page receives: Escape, Tab with or without Shift, or another.
pub data Key : Type 0 where
  escape other_key : Key
  tab : Bool → Key

-- The window's listener.
unfoldable pub on_key {ℓ} : {M : Type ℓ} → List M → Key → List M
on_key on_close escape = on_close
on_key on_close _ = []

-- The dialog's focus trap, for `n` elements that take the focus: where it moves the focus, or `none`
-- if the browser's own step is left to it. `active` is the place of the focused one, if it is one.
unfoldable pub trap_focus : ℕ → Option ℕ → Key → Option ℕ
trap_focus zero active key = none
trap_focus (suc n) active (tab shift) = elim active [
  | none ↦ none
  | some i ↦
      if shift && nat_eq i 0 then some n else if not shift && nat_eq i n then some 0 else none
]
trap_focus (suc n) active _ = none

module _ {M : Type 0} where
  unfoldable pub header : Html M
  header = el Tag.header [] (
      el Tag.p [] (says (text "A panel convenes"))
      ⊹ (el Tag.h1 [] (says (text "Council"))
          ⊹ el Tag.p [] (
              says (
                text
                  "Ask once. Four minds answer and rebut each other across rounds, live — then the Moderator hands down a verdict."))))

module _ {M : Type 0} (reveal : Text → Bool → Text) (markdown : Text → Html M) where
  unfoldable pub verdict_panel : VerdictPhase → Text → Text → List M → List M → Html M
  unfolding typing_indicator
  verdict_panel phase verdict streaming_text on_close on_ask_another =
      let deliberating : Bool = is_deliberating phase in
      el Tag.div [] (
        el Tag.button (aria_label (text "Dismiss verdict") ∷ on_click on_close ∷ []) blank
        ⊹ el Tag.div
            (Attr.role (text "dialog") ∷ modal true ∷ aria_label (text "Moderator verdict") ∷ [])
            (el Tag.header [] (
                el Tag.div [] (
                  el Tag.p [] (says (text "The Moderator"))
                  ⊹ el Tag.h2 []
                      (says (if deliberating then text "Deliberating…" else text "Final verdict")))
                ⊹ el Tag.button (on_click on_close ∷ aria_label (text "Close") ∷ [])
                    (says (text "✕")))
              ⊹ (el Tag.div [] (
                    if deliberating
                    then el Tag.div [] (
                        el Tag.p [] (
                          says (reveal streaming_text deliberating)
                          ⊹ el Tag.span [] (typing_indicator (text "Moderator deliberating"))))
                    else el Tag.div [] (markdown verdict))
                  ⊹ only_if (not deliberating) (
                      el Tag.footer [] (
                        el Tag.button (on_click on_ask_another ∷ [])
                          (says (text "Ask another question")))))))
