-- ===== src/Ui/Html.antt =====
-- Trees of elements, as JSX makes them, and what a viewer can do with one.
use council.Prelude.{
  ◌≡◌, refl, sym, ap, ◌∙◌, Bool, false, ◌||◌, List, [], ◌∷◌, ◌++◌, append_assoc, Text,
  if◌then◌else◌,
}

pub data Tag : Type 0 where
  main header footer section aside form div pre span p h1 h2 h3 label select option textarea button
        ul ol li strong em a blockquote code table th td :
      Tag
  -- Any other element.
  other : Text → Tag

-- The attributes that matter to the viewer's actions and to assistive technology. A handler is the
-- list of the messages that it sends, of type `M`; `() => {}` is the empty list.
pub data Attr {ℓ} (M : Type ℓ) : Type ℓ where
  on_click on_submit on_command_enter : List M → Attr M
  on_change : (Text → List M) → Attr M
  disabled pressed inert aria_hidden invalid modal : Bool → Attr M
  aria_label title role live value href target rel class_name : Text → Attr M

-- A forest: nothing, a text and what follows it, or an element with its children and what follows.
pub data Html {ℓ} (M : Type ℓ) : Type ℓ where
  blank : Html M
  words : Text → Html M → Html M
  element : Tag → List (Attr M) → Html M → Html M → Html M

module _ {ℓ} {M : Type ℓ} where
  infixr 60 ◌⊹◌
  -- What follows.
  abbrev pub ◌⊹◌ : Html M → Html M → Html M
  blank ⊹ h = h
  words t g ⊹ h = words t (g ⊹ h)
  element tag attrs kids g ⊹ h = element tag attrs kids (g ⊹ h)

  abbrev pub el : Tag → List (Attr M) → Html M → Html M
  el tag attrs kids = element tag attrs kids blank

  abbrev pub says : Text → Html M
  says t = words t blank

  -- `cond && h`.
  abbrev pub only_if : Bool → Html M → Html M
  only_if b h = if b then h else blank

  -- `xs.map(f)` between the braces of JSX.
  abbrev pub each {κ} : {A : Type κ} → (A → Html M) → List A → Html M
  each f [] = blank
  each f (x ∷ xs) = f x ⊹ each f xs

  abbrev pub is_disabled : List (Attr M) → Bool
  is_disabled [] = false
  is_disabled (disabled b ∷ attrs) = b || is_disabled attrs
  is_disabled (_ ∷ attrs) = is_disabled attrs

  abbrev pub is_inert : List (Attr M) → Bool
  is_inert [] = false
  is_inert (inert b ∷ attrs) = b || is_inert attrs
  is_inert (_ ∷ attrs) = is_inert attrs

  -- The handlers of clicks, one list for each.
  abbrev pub click_handlers : List (Attr M) → List (List M)
  click_handlers [] = []
  click_handlers (on_click ms ∷ attrs) = ms ∷ click_handlers attrs
  click_handlers (_ ∷ attrs) = click_handlers attrs

  -- What the viewer can click: the handlers of all elements that are neither disabled nor within an
  -- inert one, in the order of the document.
  unfoldable pub clicks : Html M → List (List M)
  clicks blank = []
  clicks (words t h) = clicks h
  clicks (element tag attrs kids h) =
      (if is_inert attrs
        then []
        else (if is_disabled attrs then [] else click_handlers attrs) ++ clicks kids)
      ++ clicks h

  pub clicks-⊹ : (g h : Html M) → clicks (g ⊹ h) ≡ clicks g ++ clicks h
  unfolding clicks
  clicks-⊹ blank h = refl
  clicks-⊹ (words t g) h = clicks-⊹ g h
  clicks-⊹ (element tag attrs kids g) h =
      let own : List (List M) =
        (if is_inert attrs
          then []
          else (if is_disabled attrs then [] else click_handlers attrs) ++ clicks kids) in
      ap (λ xs. own ++ xs) (clicks-⊹ g h) ∙ sym (append_assoc own (clicks g) (clicks h))
