-- ===== src/Stage/Shape.antt =====
-- Each persona's silhouette, frontend/src/three/robotShape.ts. The numbers are in hundredths.
use council.Prelude.{ℕ, Bool, true, false}
use council.Persona.{PersonaId, skeptic, optimist, expert, contrarian, moderator}

pub data HeadKind : Type 0 where
  faceted round visored diamond centered : HeadKind

pub record RobotShape : Type 0 where
  pub head : HeadKind
  pub head_tilt_bias : ℕ
  pub antenna_offset_x : ℕ
  pub roughness : ℕ
  pub metalness : ℕ
  pub torso_scale : ℕ
  pub gavel : Bool
  pub mortarboard : Bool

-- `SHAPES[id]`, which every id has; the function's failure on an unknown id never happens.
unfoldable pub shape_for : PersonaId → RobotShape
shape_for skeptic = record {
  head = faceted;
  head_tilt_bias = 0;
  antenna_offset_x = 0;
  roughness = 20;
  metalness = 65;
  torso_scale = 88;
  gavel = false;
  mortarboard = false;
}
shape_for optimist = record {
  head = round;
  head_tilt_bias = 0;
  antenna_offset_x = 0;
  roughness = 70;
  metalness = 15;
  torso_scale = 114;
  gavel = false;
  mortarboard = false;
}
shape_for expert = record {
  head = visored;
  head_tilt_bias = 0;
  antenna_offset_x = 0;
  roughness = 45;
  metalness = 40;
  torso_scale = 100;
  gavel = false;
  mortarboard = true;
}
shape_for contrarian = record {
  head = diamond;
  head_tilt_bias = 22;
  antenna_offset_x = 14;
  roughness = 50;
  metalness = 35;
  torso_scale = 100;
  gavel = false;
  mortarboard = false;
}
shape_for moderator = record {
  head = centered;
  head_tilt_bias = 0;
  antenna_offset_x = 0;
  roughness = 35;
  metalness = 50;
  torso_scale = 105;
  gavel = true;
  mortarboard = false;
}
