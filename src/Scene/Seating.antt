-- ===== src/Scene/Seating.antt =====
-- The seats' geometry, frontend/src/three/seating.ts.
use council.Prelude.{none, some, List, [], ◌∷◌, ◌≡◌, refl, Bool, true, false, ◌&&◌}
use council.Prelude.Dict
use council.Prelude.Dict.{Dict}
use council.Persona.{
  PersonaId, PersonaId-Key, skeptic, optimist, expert, contrarian, moderator, panelists,
  moderator_id,
}
use council.Scene.Three.{Three}

pub record Place (R : Type 0) : Type 0 where
  pub x : R
  pub y : R
  pub z : R

pub record Seat (R : Type 0) : Type 0 where
  pub place : Place R
  pub rotation_y : R

module _ (t : Three) where
  open t use {Real, part, neg, mul, pi, sin, cos}

  abbrev pub zero_of : Real
  zero_of = part 0 1

  abbrev pub deg : Real
  deg = mul pi (part 1 180)

  abbrev pub panel_radius : Real
  panel_radius = part 32 10

  abbrev pub moderator_radius : Real
  moderator_radius = part 36 10

  abbrev pub head_label_height : Real
  head_label_height = part 25 10

  -- `PANEL_ANGLES_DEG`.
  abbrev pub panel_angles : List Real
  panel_angles = neg (part 70 1) ∷ neg (part 35 1) ∷ part 35 1 ∷ part 70 1 ∷ []

  unfoldable pub seat_at : Real → Real → Seat Real
  seat_at angle radius =
      let a : Real = mul angle deg in
      record {
        place = record { x = mul (neg radius) (sin a); y = zero_of; z = mul (neg radius) (cos a) };
        rotation_y = a;
      }

  -- `panelEntries`: each panelist with the angle at the same index.
  unfoldable pub entries_from : List PersonaId → List Real → Dict PersonaId (Seat Real)
  unfolding seat_at
  entries_from (id ∷ ids) (a ∷ angles) = (id, seat_at a panel_radius) ∷ entries_from ids angles
  entries_from _ _ = []

  unfoldable pub seating : Dict PersonaId (Seat Real)
  unfolding entries_from seat_at Dict.set
  seating =
      Dict.set moderator_id (seat_at zero_of moderator_radius) (entries_from panelists panel_angles)

  -- The test at load: every id has a seat.
  unfoldable pub all_seated : List PersonaId → Bool
  unfolding seating Dict.has Dict.get
  all_seated [] = true
  all_seated (id ∷ ids) =
      (elim (Dict.get id seating) [ none ↦ false | some s ↦ true ]) && all_seated ids

  -- `SEATING[id]`, total since the test at load succeeds.
  unfoldable pub seat_of : PersonaId → Seat Real
  unfolding seating Dict.get seat_at
  seat_of id = elim (Dict.get id seating) [ none ↦ seat_at zero_of moderator_radius | some s ↦ s ]

  -- Every id is found in the table.
  pub seat_of-seating : (id : PersonaId) → Dict.get id seating ≡ some (seat_of id)
  unfolding seat_of seating Dict.get entries_from Dict.set
  seat_of-seating skeptic = refl
  seat_of-seating optimist = refl
  seat_of-seating expert = refl
  seat_of-seating contrarian = refl
  seat_of-seating moderator = refl
