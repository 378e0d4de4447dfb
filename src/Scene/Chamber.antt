-- ===== src/Scene/Chamber.antt =====
-- The room, frontend/src/three/Chamber.tsx.
use council.Prelude.{[], ◌∷◌, text}
use council.Persona.{PersonaId, palette, persona_ids, accent_of}
use council.Scene.Three.{Three}
use council.Scene.Seating.{seat_of}
use council.Scene.Tree.{
  Geometry, Scene, Lamp, nothing, fog, solid, grouped, lit, each, ◌⊹◌, position, rotation, color,
  ground_color, emissive, emissive_intensity, roughness, metalness, untoned, intensity, distance,
  opacity, transparent,
}

module _ (t : Three) where
  open t use {Real, part, neg, add, mul, pi}

  abbrev zero_of : Real
  zero_of = part 0 1

  abbrev pub table_radius : Real
  table_radius = part 17 10

  abbrev pub table_height : Real
  table_height = part 95 100

  -- The light over a seat.
  unfoldable pub seat_light : PersonaId → Scene Real
  seat_light id = lit Lamp.point (
      position (seat_of t id).place.x (part 25 10) (seat_of t id).place.z
      ∷ color (accent_of id)
      ∷ intensity (part 7 1)
      ∷ distance (part 6 1)
      ∷ [])

  unfoldable pub floor : Scene Real
  floor =
      solid
        (rotation (neg (mul pi (part 1 2))) zero_of zero_of ∷ position zero_of zero_of zero_of ∷ [])
        (Geometry.circle (part 14 1) 64)
        (color palette.bg ∷ roughness (part 1 1) ∷ metalness zero_of ∷ [])

  unfoldable pub table : Scene Real
  table =
      solid (position zero_of table_height zero_of ∷ [])
        (Geometry.cylinder table_radius table_radius (part 6 100) 64)
        (color palette.panel
          ∷ roughness (part 3 10)
          ∷ metalness (part 5 10)
          ∷ transparent
          ∷ opacity (part 65 100)
          ∷ [])
      ⊹ (solid
            (position zero_of (add table_height (part 4 100)) zero_of
              ∷ rotation (mul pi (part 1 2)) zero_of zero_of
              ∷ [])
            (Geometry.torus table_radius (part 4 100) 16 96)
            (color palette.panel_border
              ∷ emissive palette.ink
              ∷ emissive_intensity (part 35 100)
              ∷ untoned
              ∷ [])
          ⊹ solid (position zero_of (mul table_height (part 1 2)) zero_of ∷ [])
              (Geometry.cylinder (part 35 100) (part 5 10) table_height 24)
              (color palette.panel ∷ roughness (part 7 10) ∷ metalness (part 4 10) ∷ []))

  unfoldable pub chamber : Scene Real
  unfolding seat_light floor table
  chamber = grouped [] (
      fog palette.bg (part 9 1) (part 24 1) nothing
      ⊹ (lit Lamp.ambient (intensity (part 12 100) ∷ [])
          ⊹ (lit Lamp.hemisphere (
                color (text "#2A3358")
                ∷ ground_color (text "#05070D")
                ∷ intensity (part 45 100)
                ∷ [])
              ⊹ (lit Lamp.directional (
                    position (part 5 1) (part 9 1) (part 6 1)
                    ∷ intensity (part 5 10)
                    ∷ color (text "#AFC0FF")
                    ∷ [])
                  ⊹ (each seat_light persona_ids ⊹ (floor ⊹ table))))))
