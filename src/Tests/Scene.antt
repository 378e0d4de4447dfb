-- ===== src/Tests/Scene.antt =====
-- The scene's theorems over a coarse arithmetic of whole numbers.
use council.Prelude.{
  ℕ, ◌+◌, ◌*◌, ◌/◌, ◌≡◌, refl, Bool, true, false, none, some, [], ◌∷◌, Text, map, ltb, nat_eq,
  nat_eq_iff, arith, ◌&&◌, min, inr,
}
use council.Persona.{PersonaId, skeptic, moderator, persona_ids}
use council.Reducer.{initial_state}
use council.Stage.Robot.{RobotStatus}
use council.Stage.Agreement.{bubble_at}
use council.Hooks.Frameloop.{FrameloopMode}
use council.Scene.Three.{Three, HasZero}
use council.Scene.Tree.{names, labels}
use council.Scene.Label.{label_content}
use council.Scene.Council.{Canvas, debate_stage, scene_of}
use council.Scene.Cast.{driven, own_state, cast_names, debate_stage-cast}
use council.Scene.Director.{grabs, moves, frame, director_run}
use council.Scene.Manners.{view_of, grab-holds}
use council.Scene.Seating.{Place}
use council.Scene.Body.{RobotProps, Identity, props_equal, robot_persona}
use council.Scene.Motion.{Motion, frames, mounted, new_motion, is_still, frame as frame_of}
use council.Scene.Stillness.{AtRest, still_frames, frames-still}
use council.Scene.Memo.{IsIdentity, props_equal_sound}
use native.Mathlib.Nat.{zero-div}

abbrev at_once : Text → Bool → Text
at_once words streaming = words

-- Numbers are whole and never negative, easing goes half the way, and a vector is its first coordinate.
abbrev coarse : Three
coarse = record {
  Real = ℕ;
  part = λ a b. a / b;
  neg = λ x. x;
  add = λ x y. x + y;
  mul = λ x y. x * y;
  least = λ x y. min x y;
  below = ltb;
  pi = 3;
  sin = λ x. x;
  cos = λ x. 1;
  exp = λ x. 1;
  damp = λ x y l dt. (x + y) / 2;
  Vector = ℕ;
  vector = λ x y z. x;
  minus = λ v w. v;
  length_sq = λ v. v * v;
  normalize = λ v. v;
  add_scaled = λ v w s. v + w * s;
  lerp = λ v w k. w;
  confine = λ v w. w;
}

debate_stage-cast_example :
    (c : Canvas ℕ) × (debate_stage coarse initial_state FrameloopMode.demand false ≡ some c)
    × (names (scene_of coarse at_once c.seats) ≡ cast_names)
    × (labels (scene_of coarse at_once c.seats)
        ≡ map (λ id. label_content at_once (bubble_at initial_state id)) persona_ids)
    × (map driven c.seats ≡ map (own_state initial_state) persona_ids)
    × (map (λ s. s.robot.reduced_motion) c.seats ≡ map (λ id. some false) persona_ids)
debate_stage-cast_example =
    debate_stage-cast coarse at_once initial_state FrameloopMode.demand false

-- The viewer takes the controls at 1000, moves the view, and a frame comes at 3400.
grab-holds_example :
    view_of (
      director_run coarse
        (grabs 1000
          ∷ moves 7 9
          ∷ frame (record { look_at = record { x = 1; y = 2; z = 3 }; distance = 4 }) false 3400 1
          ∷ [])
        (record { controlled = true; paused_until = 0; target = 5; camera = 6 }))
    ≡ (7, 9)
grab-holds_example =
    grab-holds coarse 1000
      (moves 7 9
        ∷ frame (record { look_at = record { x = 1; y = 2; z = 3 }; distance = 4 }) false 3400 1
        ∷ [])
      (record { controlled = true; paused_until = 0; target = 5; camera = 6 }) refl
      (inr (omega arith), tt)

coarse-HasZero : HasZero coarse
coarse-HasZero = record {
  part_zero = λ b h. zero-div b;
  mul_zero = λ x. omega arith;
  zero_mul = λ x. omega arith;
  add_zero = λ x. omega arith;
  sin_zero = refl;
  damp_zero = λ l dt. refl;
}

-- The moderator, resting and under reduced motion.
abbrev resting : RobotProps ℕ
resting = record {
  id = moderator;
  accent = [];
  place = record { x = 0; y = 0; z = 0 };
  rotation_y = 0;
  size = none;
  visual = none;
  shape = none;
  reduced_motion = some true;
}

frames-still_example :
    (frames coarse ((resting, 3, 1) ∷ (resting, 4, 1) ∷ []) (mounted coarse (new_motion coarse))
      ≡ still_frames coarse
          ((resting, 3, 1) ∷ (resting, 4, 1) ∷ [])
          (mounted coarse (new_motion coarse)))
    × AtRest coarse (
        frames coarse ((resting, 3, 1) ∷ (resting, 4, 1) ∷ []) (mounted coarse (new_motion coarse)))
unfolding mounted new_motion is_still
frames-still_example =
    frames-still coarse coarse-HasZero ((resting, 3, 1) ∷ (resting, 4, 1) ∷ [])
      (mounted coarse (new_motion coarse)) (refl, (refl, tt))
      (record { flat = refl; upright = refl; level_z = refl; level_x = refl })

-- Texts and numbers by their values; no two objects are one.
same_units : Text → Text → Bool
same_units [] [] = true
same_units (a ∷ s) (b ∷ u) = nat_eq a b && same_units s u
same_units _ _ = false

same_units-eq : (a b : Text) → same_units a b ≡ true → a ≡ b
unfolding same_units
same_units-eq [] [] e = refl
same_units-eq (a ∷ s) (b ∷ u) e = ground (arith, nat_eq_iff a b, same_units-eq s u)
same_units-eq [] (b ∷ u) e = cc
same_units-eq (a ∷ s) [] e = cc

same_places : Place ℕ → Place ℕ → Bool
same_places a b = nat_eq a.x b.x && (nat_eq a.y b.y && nat_eq a.z b.z)

same_places-eq : (a b : Place ℕ) → same_places a b ≡ true → a ≡ b
unfolding same_places
same_places-eq a b e = ground arith

abbrev by_value : Identity ℕ
by_value = record {
  same_real = nat_eq;
  same_text = same_units;
  same_place = same_places;
  same_shape = λ a b. false;
}

by_value-IsIdentity : IsIdentity by_value
by_value-IsIdentity = record {
  real_eq = λ a b e. (nat_eq_iff a b).0 e;
  text_eq = same_units-eq;
  place_eq = same_places-eq;
  shape_eq = λ a b e. absurd (not_same e);
}
  where
    not_same : ¬ (◌≡◌ {A = Bool} false true)
    not_same e = cc

-- Two renders whose visual states name different personas, which drives nothing.
abbrev thinking : PersonaId → RobotProps ℕ
thinking p = record resting {
  visual = some (record {
    id = p;
    status = RobotStatus.thinking;
    speaking = false;
    dimmed = true;
    round = 2;
  });
}

props_equal_sound_example :
    (robot_persona coarse (thinking skeptic) ≡ robot_persona coarse (thinking moderator))
    × ((clock delta : ℕ) (m : Motion ℕ)
        → frame_of coarse (thinking skeptic) clock delta m
          ≡ frame_of coarse (thinking moderator) clock delta m)
unfolding props_equal same_units same_places
props_equal_sound_example =
    props_equal_sound coarse by_value (thinking skeptic) (thinking moderator) by_value-IsIdentity
      refl
