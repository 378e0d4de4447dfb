-- ===== src/Scene/Body.antt =====
-- What a robot renders, frontend/src/three/RobotPersona.tsx: the props, the chassis and its memo.
use council.Prelude.{Bool, true, false, ◌&&◌, Option, none, some, [], ◌∷◌, Text, text}
use council.Persona.{PersonaId, same, palette, id_text}
use council.Stage.Robot.{RobotVisualState}
use council.Stage.Animation.{visual_equal, same_bool}
use council.Stage.Shape.{RobotShape, shape_for}
use council.Scene.Three.{Three}
use council.Scene.Seating.{Place}
use council.Scene.Head.{robot_head, gavel_prop}
use council.Scene.Tree.{
  Geometry, Scene, Slot, Lamp, solid, grouped, lit, only_if, ◌⊹◌, position, rotation, scale, named,
  persona, color, emissive, ref, emissive_intensity, roughness, metalness, untoned, intensity,
  distance, decay,
}

-- `none` is a prop that is not given.
pub record RobotProps (R : Type 0) : Type 0 where
  pub id : PersonaId
  pub accent : Text
  pub place : Place R
  pub rotation_y : R
  pub size : Option R
  pub visual : Option RobotVisualState
  pub shape : Option RobotShape
  pub reduced_motion : Option Bool

abbrev pub or_default {ℓ} : {A : Type ℓ} → A → Option A → A
or_default d none = d
or_default d (some a) = a

abbrev pub body_color : Text
body_color = palette.panel

abbrev pub chassis_dark : Text
chassis_dark = text "#0A0E1A"

-- The shape that the robot takes.
unfoldable pub shape_of : {R : Type 0} → RobotProps R → RobotShape
shape_of p = or_default (shape_for p.id) p.shape

-- `===` on what the memo compares: numbers, texts, and the objects of a seat and of a shape.
pub record Identity (R : Type 0) : Type 0 where
  pub same_real : R → R → Bool
  pub same_text : Text → Text → Bool
  pub same_place : Place R → Place R → Bool
  pub same_shape : RobotShape → RobotShape → Bool

abbrev pub same_option {ℓ} : {A : Type ℓ} → (A → A → Bool) → Option A → Option A → Bool
same_option f none none = true
same_option f (some a) (some b) = f a b
same_option f _ _ = false

unfoldable pub props_equal : {R : Type 0} → Identity R → RobotProps R → RobotProps R → Bool
unfolding visual_equal
props_equal i a b =
    same a.id b.id
    && (i.same_text a.accent b.accent
        && (i.same_real a.rotation_y b.rotation_y
            && (same_option i.same_real a.size b.size
                && (i.same_place a.place b.place
                    && (same_option i.same_shape a.shape b.shape
                        && (same_option same_bool a.reduced_motion b.reduced_motion
                            && visual_equal a.visual b.visual))))))

module _ (t : Three) where
  open t use {Real, part, neg, mul, pi}

  abbrev zero_of : Real
  zero_of = part 0 1

  abbrev pub ring_base : Real
  ring_base = part 18 10

  abbrev pub chest_base : Real
  chest_base = part 2 1

  unfoldable pub accent_spotlight : Text → Scene Real
  accent_spotlight accent = lit Lamp.point (
      ref Slot.spotlight
      ∷ color accent
      ∷ position zero_of (part 24 10) (part 6 10)
      ∷ intensity zero_of
      ∷ distance (part 5 1)
      ∷ decay (part 2 1)
      ∷ [])

  unfoldable pub pedestal : Scene Real
  pedestal =
      solid (position zero_of (part 12 100) zero_of ∷ [])
        (Geometry.cylinder (part 55 100) (part 62 100) (part 24 100) 24)
        (color chassis_dark ∷ roughness (part 85 100) ∷ metalness (part 25 100) ∷ [])

  unfoldable pub accent_ring : Text → Scene Real
  accent_ring accent =
      solid
        (position zero_of (part 26 100) zero_of ∷ rotation (mul pi (part 1 2)) zero_of zero_of ∷ [])
        (Geometry.torus (part 5 10) (part 35 1000) 12 48)
        (ref Slot.ring
          ∷ color chassis_dark
          ∷ emissive accent
          ∷ emissive_intensity ring_base
          ∷ untoned
          ∷ [])

  unfoldable pub torso : RobotShape → Scene Real
  torso shape =
      solid
        (position zero_of (part 92 100) zero_of
          ∷ scale (part shape.torso_scale 100) (part 1 1) (part shape.torso_scale 100)
          ∷ [])
        (Geometry.capsule (part 42 100) (part 7 10) 6 16)
        (color body_color ∷ roughness (part 6 10) ∷ metalness (part 35 100) ∷ [])

  unfoldable pub chest_light : Text → Scene Real
  chest_light accent =
      solid (position zero_of (part 98 100) (part 34 100) ∷ [])
        (Geometry.box (part 2 10) (part 2 10) (part 6 100))
        (ref Slot.chest
          ∷ color chassis_dark
          ∷ emissive accent
          ∷ emissive_intensity chest_base
          ∷ untoned
          ∷ [])

  unfoldable pub robot_persona : RobotProps Real → Scene Real
  unfolding shape_of accent_spotlight pedestal accent_ring torso chest_light robot_head gavel_prop
  robot_persona p =
      let s : Real = or_default (part 1 1) p.size in
      grouped
        (named (id_text p.id)
          ∷ persona p.id
          ∷ position p.place.x p.place.y p.place.z
          ∷ rotation zero_of p.rotation_y zero_of
          ∷ scale s s s
          ∷ [])
        (accent_spotlight p.accent
          ⊹ grouped (ref Slot.bob ∷ []) (
              pedestal
              ⊹ (accent_ring p.accent
                  ⊹ (torso (shape_of p)
                      ⊹ (chest_light p.accent
                          ⊹ (robot_head t (shape_of p) p.accent body_color chassis_dark
                              ⊹ only_if (shape_of p).gavel (gavel_prop t p.accent)))))))
