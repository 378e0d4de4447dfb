-- ===== src/Scene/Memo.antt =====
-- The memo of a robot, `propsEqual` of frontend/src/three/RobotPersona.tsx: what it may skip.
use council.Prelude.{
  ◌≡◌, refl, sym, ap, ◌∙◌, Bool, true, false, ◌&&◌, Option, none, some, Text, arith, nat_eq_iff,
}
use council.Persona.{same_iff}
use council.Stage.Robot.{RobotStatus, RobotVisualState}
use council.Stage.Animation.{visual_equal, same_status, same_bool}
use council.Stage.Shape.{RobotShape}
use council.Scene.Three.{Three}
use council.Scene.Seating.{Place}
use council.Scene.Body.{RobotProps, Identity, props_equal, same_option, robot_persona}
use council.Scene.Motion.{Motion, frame}

-- What `===` promises: equal texts and numbers, and one object.
pub record IsIdentity {R : Type 0} (i : Identity R) : Type 0 where
  pub real_eq : (a b : R) → i.same_real a b ≡ true → a ≡ b
  pub text_eq : (a b : Text) → i.same_text a b ≡ true → a ≡ b
  pub place_eq : (a b : Place R) → i.same_place a b ≡ true → a ≡ b
  pub shape_eq : (a b : RobotShape) → i.same_shape a b ≡ true → a ≡ b

same_option-eq {ℓ} :
    {A : Type ℓ} (f : A → A → Bool)
    → ((x y : A) → f x y ≡ true → x ≡ y)
    → (a b : Option A) → same_option f a b ≡ true
    → a ≡ b
same_option-eq f h none none e = refl
same_option-eq f h (some a) (some b) e = ap some (h a b e)
same_option-eq f h none (some b) e = cc
same_option-eq f h (some a) none e = cc

same_bool-eq : (a b : Bool) → same_bool a b ≡ true → a ≡ b
same_bool-eq a b e = ground arith

same_status-eq : (a b : RobotStatus) → same_status a b ≡ true → a ≡ b
same_status-eq a b e = ground arith

-- Two states that the memo takes for equal differ at most in the persona.
visual_equal-eq :
    (v w : RobotVisualState) → visual_equal (some v) (some w) ≡ true → w ≡ record v { id = w.id }
unfolding visual_equal
visual_equal-eq v w e = ground (
  arith,
  same_status-eq v.status w.status,
  same_bool-eq v.speaking w.speaking,
  same_bool-eq v.dimmed w.dimmed,
  nat_eq_iff v.round w.round,
)

not_equal : ¬ (◌≡◌ {A = Bool} false true)
not_equal e = cc

&&-eq : (a b : Bool) → (a && b) ≡ true → (a ≡ true) × (b ≡ true)
&&-eq true b e = (refl, e)
&&-eq false b e = cc

module _ (t : Three) where
  open t use {Real}

  frame-visual :
      (p : RobotProps Real) (v w : Option RobotVisualState) (clock delta : Real) (m : Motion Real)
      → visual_equal v w ≡ true
      → frame t (record p { visual = v }) clock delta m
        ≡ frame t (record p { visual = w }) clock delta m
  unfolding frame visual_equal
  frame-visual p none none clock delta m e = refl
  frame-visual p (some v) (some w) clock delta m e = rw (visual_equal-eq v w e) refl
  frame-visual p none (some w) clock delta m e = absurd (not_equal e)
  frame-visual p (some v) none clock delta m e = absurd (not_equal e)

  props_equal-eq :
      (i : Identity Real) (a b : RobotProps Real)
      → IsIdentity i
      → props_equal i a b ≡ true
      → (b ≡ record a { visual = b.visual }) × (visual_equal a.visual b.visual ≡ true)
  unfolding props_equal
  props_equal-eq i a b h e =
      let c1 = &&-eq _ _ e in
      let c2 = &&-eq _ _ c1.1 in
      let c3 = &&-eq _ _ c2.1 in
      let c4 = &&-eq _ _ c3.1 in
      let c5 = &&-eq _ _ c4.1 in
      let c6 = &&-eq _ _ c5.1 in
      let c7 = &&-eq _ _ c6.1 in
      let id_eq : a.id ≡ b.id = (same_iff a.id b.id).0 c1.0 in
      let accent_eq : a.accent ≡ b.accent = h.text_eq a.accent b.accent c2.0 in
      let rotation_eq : a.rotation_y ≡ b.rotation_y = h.real_eq a.rotation_y b.rotation_y c3.0 in
      let size_eq : a.size ≡ b.size = same_option-eq i.same_real h.real_eq a.size b.size c4.0 in
      let place_eq : a.place ≡ b.place = h.place_eq a.place b.place c5.0 in
      let shape_eq : a.shape ≡ b.shape =
        same_option-eq i.same_shape h.shape_eq a.shape b.shape c6.0 in
      let motion_eq : a.reduced_motion ≡ b.reduced_motion =
        same_option-eq same_bool same_bool-eq a.reduced_motion b.reduced_motion c7.0 in
      (cc, c7.1)

  -- A render that the memo skips changes nothing: if `propsEqual` holds then both props make the same
  -- elements, and every frame with either moves the robot alike.
  pub props_equal_sound :
      (i : Identity Real) (a b : RobotProps Real)
      → IsIdentity i
      → props_equal i a b ≡ true
      → (robot_persona t a ≡ robot_persona t b)
        × ((clock delta : Real) (m : Motion Real)
            → frame t a clock delta m ≡ frame t b clock delta m)
  unfolding robot_persona
  props_equal_sound i a b h e =
      let same : (b ≡ record a { visual = b.visual }) × (visual_equal a.visual b.visual ≡ true) =
        props_equal-eq i a b h e in
      (
        rw same.0 refl,
        λ clock delta m.
            frame-visual a a.visual b.visual clock delta m same.1
            ∙ ap (λ p. frame t p clock delta m) (sym same.0),
      )
