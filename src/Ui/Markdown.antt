-- ===== src/Ui/Markdown.antt =====
-- The moderator's verdict as markdown, frontend/src/components/verdict/Markdown.tsx. What parses a
-- text and puts the elements together is react-markdown's; the renderers are the program's.
use council.Prelude.{◌≡◌, refl, arith, Option, none, some, List, [], ◌∷◌, ◌++◌, Text, text}
use council.Ui.Html.{
  Html, Tag, Attr, blank, words, element, el, ◌⊹◌, class_name, href, target, rel, clicks, clicks-⊹,
  click_handlers,
}

-- The elements that the program renders itself, with what a renderer is given besides its children.
pub data Part : Type 0 where
  h1 h2 h3 paragraph ul ol li strong em blockquote pre table th td : Part
  link : Option Text → Part
  code : Option Text → Part

-- A prop that is given, as an attribute.
abbrev pub given {ℓ} : {M : Type ℓ} → (Text → Attr M) → Option Text → List (Attr M)
given f none = []
given f (some t) = f t ∷ []

module _ {M : Type 0} where
  -- `components[part]`. The class names are those by which code in a line and in a block differ.
  unfoldable pub components : Part → Html M → Html M
  components h1 kids = el Tag.h1 [] kids
  components h2 kids = el Tag.h2 [] kids
  components h3 kids = el Tag.h3 [] kids
  components paragraph kids = el Tag.p [] kids
  components ul kids = el Tag.ul [] kids
  components ol kids = el Tag.ol [] kids
  components li kids = el Tag.li [] kids
  components strong kids = el Tag.strong [] kids
  components em kids = el Tag.em [] kids
  components (link at) kids =
      el Tag.a (given href at ++ (target (text "_blank") ∷ rel (text "noopener noreferrer") ∷ []))
        kids
  components blockquote kids = el Tag.blockquote [] kids
  components (code none) kids =
      el Tag.code
        (class_name (text "rounded bg-bg px-1 py-0.5 font-mono text-sm text-moderator") ∷ []) kids
  components (code (some [])) kids =
      el Tag.code
        (class_name (text "rounded bg-bg px-1 py-0.5 font-mono text-sm text-moderator") ∷ []) kids
  components (code (some (ch ∷ name))) kids =
      el Tag.code (class_name ((ch ∷ name) ++ text " font-mono text-sm") ∷ []) kids
  components pre kids = el Tag.pre [] kids
  components table kids = el Tag.div [] (el Tag.table [] kids)
  components th kids = el Tag.th [] kids
  components td kids = el Tag.td [] kids

  -- `react_markdown components t` is what the library makes of a text with the renderers.
  unfoldable pub markdown : ((Part → Html M → Html M) → Text → Html M) → Text → Html M
  markdown react_markdown t = react_markdown components t

-- A tree that the library builds with renderers: texts, what a renderer makes of children, and
-- elements of its own, which carry no handler and are no links.
pub data Rendered {M : Type 0} (r : Part → Html M → Html M) : Html M → Type 0 where
  nothing : Rendered r blank
  says : (t : Text) (h : Html M) → Rendered r h → Rendered r (words t h)
  part : (x : Part) (kids h : Html M) → Rendered r kids → Rendered r h → Rendered r (r x kids ⊹ h)
  own :
      (name : Text) (attrs : List (Attr M)) (kids h : Html M)
      → click_handlers attrs ≡ []
      → Rendered r kids
      → Rendered r h
      → Rendered r (element (Tag.other name) attrs kids h)

module _ {M : Type 0} where
  abbrev pub rels : List (Attr M) → List Text
  rels [] = []
  rels (rel t ∷ attrs) = t ∷ rels attrs
  rels (_ ∷ attrs) = rels attrs

  -- A link tells the page that it opens nothing of this one.
  abbrev pub KeepsOpener : Tag → List (Attr M) → Type 0
  KeepsOpener Tag.a attrs = rels attrs ≡ text "noopener noreferrer" ∷ []
  KeepsOpener _ attrs = Unit

  abbrev pub AllKeepOpener : Html M → Type 0
  AllKeepOpener blank = Unit
  AllKeepOpener (words t h) = AllKeepOpener h
  AllKeepOpener (element tag attrs kids h) =
      KeepsOpener tag attrs × AllKeepOpener kids × AllKeepOpener h

  AllKeepOpener-⊹ : (g h : Html M) → AllKeepOpener g → AllKeepOpener h → AllKeepOpener (g ⊹ h)
  AllKeepOpener-⊹ blank h b q = q
  AllKeepOpener-⊹ (words t g) h b q = AllKeepOpener-⊹ g h b q
  AllKeepOpener-⊹ (element tag attrs kids g) h b q = (b.0, b.1, AllKeepOpener-⊹ g h b.2 q)

  -- A tree with nothing to click and safe links.
  abbrev pub IsHarmless : Html M → Type 0
  IsHarmless h = (clicks h ≡ []) × AllKeepOpener h

  wrapped :
      (kids : Html M)
      → IsHarmless kids
      → (clicks kids ++ [] ≡ []) × (Unit {0} × AllKeepOpener kids × Unit {0})
  wrapped kids h = (rw h.0 refl, (tt, h.1, tt))

  components-IsHarmless :
      (x : Part) (kids : Html M) → IsHarmless kids → IsHarmless (components x kids)
  unfolding components clicks
  components-IsHarmless h1 kids h = wrapped kids h
  components-IsHarmless h2 kids h = wrapped kids h
  components-IsHarmless h3 kids h = wrapped kids h
  components-IsHarmless paragraph kids h = wrapped kids h
  components-IsHarmless ul kids h = wrapped kids h
  components-IsHarmless ol kids h = wrapped kids h
  components-IsHarmless li kids h = wrapped kids h
  components-IsHarmless strong kids h = wrapped kids h
  components-IsHarmless em kids h = wrapped kids h
  components-IsHarmless blockquote kids h = wrapped kids h
  components-IsHarmless pre kids h = wrapped kids h
  components-IsHarmless th kids h = wrapped kids h
  components-IsHarmless td kids h = wrapped kids h
  components-IsHarmless (code none) kids h = wrapped kids h
  components-IsHarmless (code (some [])) kids h = wrapped kids h
  components-IsHarmless (code (some (ch ∷ name))) kids h = wrapped kids h
  components-IsHarmless table kids h = wrapped (el Tag.table [] kids) (wrapped kids h)
  components-IsHarmless (link none) kids h = (rw h.0 refl, (refl, h.1, tt))
  components-IsHarmless (link (some at)) kids h = (rw h.0 refl, (refl, h.1, tt))

  Rendered-IsHarmless : {h : Html M} → Rendered components h → IsHarmless h
  unfolding clicks
  Rendered-IsHarmless nothing = (refl, tt)
  Rendered-IsHarmless (says t h r) = Rendered-IsHarmless r
  Rendered-IsHarmless (part x kids h r s) =
      let own = components-IsHarmless x kids (Rendered-IsHarmless r) in
      let rest = Rendered-IsHarmless s in
      (
        rw (clicks-⊹ (components x kids) h, own.0, rest.0) refl,
        AllKeepOpener-⊹ (components x kids) h own.1 rest.1,
      )
  Rendered-IsHarmless (own name attrs kids h e r s) =
      let inner = Rendered-IsHarmless r in
      let rest = Rendered-IsHarmless s in
      (ground (arith, e, inner.0, rest.0), (tt, inner.1, rest.1))

  -- The verdict is text of a model that nobody vouches for. If the library builds only with the
  -- program's renderers, with texts and with elements of its own that have no handler, then whatever
  -- the verdict says, nothing in it can be clicked to reach the program, and each link gives the page
  -- that it opens no way back.
  pub markdown-harmless :
      (react_markdown : (Part → Html M → Html M) → Text → Html M)
      → ((t : Text) → Rendered components (react_markdown components t))
      → (t : Text)
      → (clicks (markdown react_markdown t) ≡ []) × AllKeepOpener (markdown react_markdown t)
  unfolding markdown
  markdown-harmless react_markdown builds t = Rendered-IsHarmless (builds t)
