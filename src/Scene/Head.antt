-- ===== src/Scene/Head.antt =====
-- The head and the gavel, frontend/src/three/parts: RobotHead.tsx and GavelProp.tsx.
use council.Prelude.{Bool, true, false, [], ◌∷◌, Text, text}
use council.Stage.Shape.{HeadKind, RobotShape}
use council.Scene.Three.{Three}
use council.Scene.Tree.{
  Geometry, Scene, Slot, solid, grouped, only_if, ◌⊹◌, position, rotation, named, user_prop, color,
  emissive, ref, emissive_intensity, roughness, metalness, untoned, flat_shading,
}

-- `shape.head === "visored"`.
abbrev pub is_visored : HeadKind → Bool
is_visored HeadKind.visored = true
is_visored _ = false

-- A head's solid, with the depth of its visor; the roll of a box is 0 where the source has none.
pub data HeadGeometry (R : Type 0) : Type 0 where
  box : R → R → R → R → R → HeadGeometry R
  sphere : R → R → HeadGeometry R
  octahedron : R → R → HeadGeometry R

module _ (t : Three) where
  open t use {Real, part, neg, mul, pi}

  abbrev pub zero_of : Real
  zero_of = part 0 1

  abbrev pub visor_base : Real
  visor_base = part 26 10

  abbrev pub tip_base : Real
  tip_base = part 24 10

  -- `HEAD_GEOMETRY[kind]`.
  unfoldable pub head_geometry : HeadKind → HeadGeometry Real
  head_geometry HeadKind.faceted = HeadGeometry.octahedron (part 34 100) (part 22 100)
  head_geometry HeadKind.round = HeadGeometry.sphere (part 32 100) (part 2 10)
  head_geometry HeadKind.visored =
      HeadGeometry.box (part 62 100) (part 46 100) (part 5 10) (part 26 100) zero_of
  head_geometry HeadKind.diamond =
      HeadGeometry.box (part 5 10) (part 5 10) (part 5 10) (part 26 100) (mul pi (part 1 4))
  head_geometry HeadKind.centered =
      HeadGeometry.box (part 62 100) (part 46 100) (part 5 10) (part 26 100) zero_of

  abbrev pub visor_z : HeadGeometry Real → Real
  visor_z (HeadGeometry.box x y z v roll) = v
  visor_z (HeadGeometry.sphere r v) = v
  visor_z (HeadGeometry.octahedron r v) = v

  -- The mesh of the head's kind.
  unfoldable pub skull : HeadGeometry Real → RobotShape → Text → Scene Real
  skull (HeadGeometry.box x y z v roll) shape body_color =
      solid (position zero_of (part 22 100) zero_of ∷ rotation zero_of zero_of roll ∷ [])
        (Geometry.box x y z)
        (color body_color
          ∷ roughness (part shape.roughness 100)
          ∷ metalness (part shape.metalness 100)
          ∷ [])
  skull (HeadGeometry.sphere r v) shape body_color =
      solid (position zero_of (part 22 100) zero_of ∷ []) (Geometry.sphere r 20 16) (
        color body_color
        ∷ roughness (part shape.roughness 100)
        ∷ metalness (part shape.metalness 100)
        ∷ [])
  skull (HeadGeometry.octahedron r v) shape body_color =
      solid (position zero_of (part 22 100) zero_of ∷ []) (Geometry.octahedron r 0) (
        color body_color
        ∷ roughness (part shape.roughness 100)
        ∷ metalness (part shape.metalness 100)
        ∷ flat_shading
        ∷ [])

  unfoldable pub brow : Text → Scene Real
  brow chassis_dark =
      solid (position zero_of (part 34 100) (part 18 100) ∷ [])
        (Geometry.box (part 5 10) (part 6 100) (part 2 10))
        (color chassis_dark ∷ roughness (part 3 10) ∷ metalness (part 6 10) ∷ [])

  unfoldable pub mortarboard : Text → Text → Scene Real
  mortarboard body_color chassis_dark =
      grouped
        (named (text "mortarboard")
          ∷ position zero_of (part 48 100) zero_of
          ∷ rotation zero_of (part 35 100) zero_of
          ∷ [])
        (solid [] (Geometry.box (part 72 100) (part 4 100) (part 72 100))
            (color body_color ∷ roughness (part 55 100) ∷ metalness (part 35 100) ∷ [])
          ⊹ (solid (position zero_of (part 4 100) zero_of ∷ [])
                (Geometry.cylinder (part 5 100) (part 5 100) (part 4 100) 12)
                (color chassis_dark ∷ roughness (part 6 10) ∷ metalness (part 3 10) ∷ [])
              ⊹ (solid (position (part 32 100) (neg (part 9 100)) (part 32 100) ∷ [])
                    (Geometry.cylinder (part 12 1000) (part 12 1000) (part 2 10) 6)
                    (color chassis_dark ∷ roughness (part 8 10) ∷ metalness (part 2 10) ∷ [])
                  ⊹ solid (position (part 32 100) (neg (part 21 100)) (part 32 100) ∷ [])
                      (Geometry.sphere (part 45 1000) 12 12)
                      (color chassis_dark ∷ roughness (part 8 10) ∷ metalness (part 2 10) ∷ []))))

  unfoldable pub visor_mesh : Real → Text → Text → Scene Real
  visor_mesh z accent chassis_dark =
      solid (position zero_of (part 24 100) z ∷ [])
        (Geometry.box (part 44 100) (part 12 100) (part 5 100))
        (ref Slot.visor
          ∷ color chassis_dark
          ∷ emissive accent
          ∷ emissive_intensity visor_base
          ∷ untoned
          ∷ [])

  unfoldable pub antenna : Real → Text → Text → Scene Real
  antenna x accent chassis_dark =
      solid (position x (part 6 10) zero_of ∷ [])
        (Geometry.cylinder (part 25 1000) (part 25 1000) (part 36 100) 8)
        (color chassis_dark ∷ roughness (part 8 10) ∷ metalness (part 3 10) ∷ [])
      ⊹ solid (position x (part 82 100) zero_of ∷ []) (Geometry.sphere (part 7 100) 16 16) (
          ref Slot.tip
          ∷ color chassis_dark
          ∷ emissive accent
          ∷ emissive_intensity tip_base
          ∷ untoned
          ∷ [])

  unfoldable pub robot_head : RobotShape → Text → Text → Text → Scene Real
  unfolding head_geometry skull brow mortarboard visor_mesh antenna
  robot_head shape accent body_color chassis_dark =
      let geo : HeadGeometry Real = head_geometry shape.head in
      grouped
        (ref Slot.head
          ∷ named (text "head")
          ∷ position zero_of (part 14 10) zero_of
          ∷ rotation zero_of (part shape.head_tilt_bias 100) zero_of
          ∷ [])
        (skull geo shape body_color
          ⊹ (only_if (is_visored shape.head) (brow chassis_dark)
              ⊹ (only_if shape.mortarboard (mortarboard body_color chassis_dark)
                  ⊹ (visor_mesh (visor_z geo) accent chassis_dark
                      ⊹ antenna (part shape.antenna_offset_x 100) accent chassis_dark))))

  unfoldable pub gavel_prop : Text → Scene Real
  gavel_prop accent =
      grouped
        (named (text "gavel")
          ∷ user_prop (text "gavel")
          ∷ position (part 5 10) (part 55 100) (part 3 10)
          ∷ rotation zero_of zero_of (neg (part 4 10))
          ∷ [])
        (solid (position zero_of zero_of zero_of ∷ [])
            (Geometry.cylinder (part 3 100) (part 3 100) (part 5 10) 8)
            (color (text "#3B2A1E") ∷ roughness (part 7 10) ∷ metalness (part 1 10) ∷ [])
          ⊹ solid
              (position zero_of (part 28 100) zero_of
                ∷ rotation zero_of zero_of (mul pi (part 1 2))
                ∷ [])
              (Geometry.cylinder (part 9 100) (part 9 100) (part 22 100) 12)
              (color (text "#0A0E1A")
                ∷ emissive accent
                ∷ emissive_intensity (part 55 100)
                ∷ untoned
                ∷ roughness (part 4 10)
                ∷ metalness (part 5 10)
                ∷ []))
