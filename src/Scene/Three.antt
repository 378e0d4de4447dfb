-- ===== src/Scene/Three.antt =====
-- What the stage uses of JavaScript's numbers and of Three: a parameter of the scene.
use council.Prelude.{ℕ, ◌≡◌, ◌≤◌, Bool}

pub record Three : Type 1 where
  pub Real : Type 0
  -- The literal of `a / b`.
  pub part : ℕ → ℕ → Real
  pub neg : Real → Real
  pub add : Real → Real → Real
  pub mul : Real → Real → Real
  pub least : Real → Real → Real
  pub below : Real → Real → Bool
  pub pi : Real
  pub sin : Real → Real
  pub cos : Real → Real
  pub exp : Real → Real
  -- `MathUtils.damp(x, y, lambda, dt)`.
  pub damp : Real → Real → Real → Real → Real
  pub Vector : Type 0
  -- `new Vector3(x, y, z)`.
  pub vector : Real → Real → Real → Vector
  -- `a.sub(b)`, `v.lengthSq()` and `v.normalize()`.
  pub minus : Vector → Vector → Vector
  pub length_sq : Vector → Real
  pub normalize : Vector → Vector
  -- `a.addScaledVector(v, s)` and `a.lerp(b, k)`.
  pub add_scaled : Vector → Vector → Real → Vector
  pub lerp : Vector → Vector → Real → Vector
  -- `OrbitControls.update()`: the camera's position, put within the limits around the target.
  pub confine : Vector → Vector → Vector

-- How zero behaves, which floating point does too for finite arguments, up to the sign of a zero.
pub record HasZero (t : Three) : Type 0 where
  pub part_zero : (b : ℕ) → 1 ≤ b → t.part 0 b ≡ t.part 0 1
  pub mul_zero : (x : t.Real) → t.mul (t.part 0 1) x ≡ t.part 0 1
  pub zero_mul : (x : t.Real) → t.mul x (t.part 0 1) ≡ t.part 0 1
  pub add_zero : (x : t.Real) → t.add x (t.part 0 1) ≡ x
  pub sin_zero : t.sin (t.part 0 1) ≡ t.part 0 1
  -- Easing from zero to zero stays there.
  pub damp_zero : (l dt : t.Real) → t.damp (t.part 0 1) (t.part 0 1) l dt ≡ t.part 0 1
