-- ===== src/Scene/Tree.antt =====
-- Scenes, as React Three Fiber's JSX makes them, and what can be found in one.
use council.Prelude.{
  ℕ, ◌≡◌, refl, sym, ap, ◌∙◌, Bool, List, [], ◌∷◌, ◌++◌, append_assoc, Text, if◌then◌else◌,
}
use council.Persona.{PersonaId}
use council.Ui.Html.{Html}

-- The objects that the frame loop of a robot holds on to.
pub data Slot : Type 0 where
  bob head spotlight ring chest visor tip : Slot

-- The attributes of a node or of a material, over the numbers `R`.
pub data Prop (R : Type 0) : Type 0 where
  position rotation scale : R → R → R → Prop R
  named user_prop color ground_color emissive : Text → Prop R
  persona : PersonaId → Prop R
  ref : Slot → Prop R
  emissive_intensity roughness metalness opacity intensity distance decay : R → Prop R
  untoned flat_shading transparent : Prop R

pub data Geometry (R : Type 0) : Type 0 where
  box : R → R → R → Geometry R
  sphere : R → ℕ → ℕ → Geometry R
  octahedron : R → ℕ → Geometry R
  cylinder : R → R → R → ℕ → Geometry R
  torus : R → R → ℕ → ℕ → Geometry R
  capsule : R → R → ℕ → ℕ → Geometry R
  circle : R → ℕ → Geometry R

pub data Lamp : Type 0 where
  point ambient hemisphere directional : Lamp

-- A forest. A mesh has its own attributes, its geometry and those of its standard material.
pub data Scene (R : Type 0) : Type 0 where
  nothing : Scene R
  mesh : List (Prop R) → Geometry R → List (Prop R) → Scene R → Scene R
  group : List (Prop R) → Scene R → Scene R → Scene R
  light : Lamp → List (Prop R) → Scene R → Scene R
  fog : Text → R → R → Scene R → Scene R
  -- drei's `Html`, whose content has no handlers.
  label : List (Prop R) → R → Html (Unit {0}) → Scene R → Scene R

module _ {R : Type 0} where
  infixr 60 ◌⊹◌
  abbrev pub ◌⊹◌ : Scene R → Scene R → Scene R
  nothing ⊹ s = s
  mesh ps g ms r ⊹ s = mesh ps g ms (r ⊹ s)
  group ps kids r ⊹ s = group ps kids (r ⊹ s)
  light l ps r ⊹ s = light l ps (r ⊹ s)
  fog c near far r ⊹ s = fog c near far (r ⊹ s)
  label ps d h r ⊹ s = label ps d h (r ⊹ s)

  abbrev pub solid : List (Prop R) → Geometry R → List (Prop R) → Scene R
  solid ps g ms = mesh ps g ms nothing

  abbrev pub grouped : List (Prop R) → Scene R → Scene R
  grouped ps kids = group ps kids nothing

  abbrev pub lit : Lamp → List (Prop R) → Scene R
  lit l ps = light l ps nothing

  -- `cond && s`.
  abbrev pub only_if : Bool → Scene R → Scene R
  only_if b s = if b then s else nothing

  -- `xs.map(f)`.
  abbrev pub each {κ} : {A : Type κ} → (A → Scene R) → List A → Scene R
  each f [] = nothing
  each f (x ∷ xs) = f x ⊹ each f xs

  abbrev pub name_of : List (Prop R) → List Text
  name_of [] = []
  name_of (named t ∷ ps) = t ∷ name_of ps
  name_of (_ ∷ ps) = name_of ps

  -- The names of the groups, in the order of the document.
  unfoldable pub names : Scene R → List Text
  names nothing = []
  names (mesh ps g ms s) = names s
  names (group ps kids s) = name_of ps ++ (names kids ++ names s)
  names (light l ps s) = names s
  names (fog c near far s) = names s
  names (label ps d h s) = names s

  -- The labels' contents, in the order of the document.
  unfoldable pub labels : Scene R → List (Html (Unit {0}))
  labels nothing = []
  labels (mesh ps g ms s) = labels s
  labels (group ps kids s) = labels kids ++ labels s
  labels (light l ps s) = labels s
  labels (fog c near far s) = labels s
  labels (label ps d h s) = h ∷ labels s

  pub names-⊹ : (a b : Scene R) → names (a ⊹ b) ≡ names a ++ names b
  unfolding names
  names-⊹ nothing b = refl
  names-⊹ (mesh ps g ms a) b = names-⊹ a b
  names-⊹ (group ps kids a) b =
      ap (λ xs. name_of ps ++ (names kids ++ xs)) (names-⊹ a b)
      ∙ (ap (λ xs. name_of ps ++ xs) (sym (append_assoc (names kids) (names a) (names b)))
          ∙ sym (append_assoc (name_of ps) (names kids ++ names a) (names b)))
  names-⊹ (light l ps a) b = names-⊹ a b
  names-⊹ (fog c near far a) b = names-⊹ a b
  names-⊹ (label ps d h a) b = names-⊹ a b

  pub labels-⊹ : (a b : Scene R) → labels (a ⊹ b) ≡ labels a ++ labels b
  unfolding labels
  labels-⊹ nothing b = refl
  labels-⊹ (mesh ps g ms a) b = labels-⊹ a b
  labels-⊹ (group ps kids a) b =
      ap (λ xs. labels kids ++ xs) (labels-⊹ a b)
      ∙ sym (append_assoc (labels kids) (labels a) (labels b))
  labels-⊹ (light l ps a) b = labels-⊹ a b
  labels-⊹ (fog c near far a) b = labels-⊹ a b
  labels-⊹ (label ps d h a) b = ap (λ xs. h ∷ xs) (labels-⊹ a b)
