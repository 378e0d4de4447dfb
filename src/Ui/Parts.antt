-- ===== src/Ui/Parts.antt =====
-- What stands within a tree of elements.
use council.Prelude.{
  ◌≡◌, refl, subst, sym, ◌∙◌, ap, true, true≢false, List, [], ◌∷◌, if◌then◌else◌, Bool-cases, inl,
  inr, Key, ◌==◌,
}
use council.Prelude.Dict
use council.Ui.Html.{Html, Tag, Attr, blank, words, element, each, ◌⊹◌}

module _ {M : Type 0} where
  -- `g` stands in the forest, at its start, after something else, or within an element.
  pub data IsPart (g : Html M) : Html M → Type 0 where
    first : (h : Html M) → IsPart g (g ⊹ h)
    after : (f h : Html M) → IsPart g h → IsPart g (f ⊹ h)
    inside :
        (tag : Tag) (attrs : List (Attr M)) (kids h : Html M)
        → IsPart g kids
        → IsPart g (element tag attrs kids h)

  ⊹-assoc : (a b c : Html M) → (a ⊹ b) ⊹ c ≡ a ⊹ (b ⊹ c)
  ⊹-assoc blank b c = refl
  ⊹-assoc (words t a) b c = ap (words t) (⊹-assoc a b c)
  ⊹-assoc (element tag attrs kids a) b c = ap (element tag attrs kids) (⊹-assoc a b c)

  -- What stands in a forest stands in it when something follows.
  pub IsPart-before : (g a h : Html M) → IsPart g a → IsPart g (a ⊹ h)
  IsPart-before g a h (first b) = subst (IsPart g) (sym (⊹-assoc g b h)) (first (b ⊹ h))
  IsPart-before g a h (after f b p) =
      subst (IsPart g) (sym (⊹-assoc f b h)) (after f (b ⊹ h) (IsPart-before g b h p))
  IsPart-before g a h (inside tag attrs kids b p) = inside tag attrs kids (b ⊹ h) p

  -- What is made of one of a list stands in what is made of the list.
  pub each-IsPart :
      {K : Type 0} ⦃key : Key K⦄ (f : K → Html M) (k : K) (ks : List K)
      → Dict.has k ks ≡ true
      → IsPart (f k) (each f ks)
  unfolding Dict.has
  each-IsPart f k [] m = absurd (true≢false (sym m))
  each-IsPart ⦃key⦄ f k (x ∷ ks) m = elim (Bool-cases (x == k)) [
    | inl e ↦
        subst (λ y. IsPart (f k) (f y ⊹ each f ks)) (sym ((key.equals_iff x k).0 e))
          (first (each f ks))
    | inr e ↦
        after (f x) (each f ks)
          (each-IsPart f k ks (sym (ap (λ b. if b then true else Dict.has k ks) e) ∙ m))
  ]
