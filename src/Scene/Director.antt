-- ===== src/Scene/Director.antt =====
-- The camera's director, frontend/src/three/CameraDirector.tsx. Times are in milliseconds.
use council.Prelude.{ℕ, ◌+◌, Bool, not, ◌||◌, List, [], ◌∷◌, ltb, if◌then◌else◌}
use council.Scene.Three.{Three}
use council.Scene.Framing.{Shot}

abbrev pub user_pause : ℕ
user_pause = 2500

-- Whether the controls exist, until when they are the viewer's, and what they and the camera hold.
pub record Director (V : Type 0) : Type 0 where
  pub controlled : Bool
  pub paused_until : ℕ
  pub target : V
  pub camera : V

pub data DirectorStep (R V : Type 0) : Type 0 where
  -- The viewer takes the controls, or leaves them where they moved the view to.
  grabs : ℕ → DirectorStep R V
  moves : V → V → DirectorStep R V
  -- A frame with the shot and the preference of the last render.
  frame : Shot R → Bool → ℕ → R → DirectorStep R V

module _ (t : Three) where
  open t use {
    Real, Vector, part, neg, add, mul, below, exp, vector, minus, length_sq, normalize, add_scaled,
    lerp, confine,
  }

  -- The direction from the target to the camera, of length one.
  unfoldable pub direction : Vector → Vector → Vector
  direction camera target =
      let dir : Vector = minus camera target in
      normalize (
        if below (length_sq dir) (part 1 1000000)
        then vector (part 0 1) (part 0 1) (part 1 1)
        else dir)

  unfoldable pub ease_factor : Real → Real
  ease_factor delta = add (part 1 1) (neg (exp (mul (neg (part 24 10)) delta)))

  unfoldable pub on_start : ℕ → Director Vector → Director Vector
  on_start now d = if d.controlled then record d { paused_until = now + user_pause } else d

  unfoldable pub on_frame : Shot Real → Bool → ℕ → Real → Director Vector → Director Vector
  unfolding direction ease_factor
  on_frame shot reduced_motion now delta d =
      let look : Vector = vector shot.look_at.x shot.look_at.y shot.look_at.z in
      let position : Vector = add_scaled look (direction d.camera d.target) shot.distance in
      let k : Real = ease_factor delta in
      if reduced_motion || not d.controlled
      then d
      else if ltb now d.paused_until
      then d
      else record d {
        target = lerp d.target look k;
        camera = confine (lerp d.target look k) (lerp d.camera position k);
      }

  unfoldable pub director_step : DirectorStep Real Vector → Director Vector → Director Vector
  unfolding on_start on_frame
  director_step (grabs now) d = on_start now d
  director_step (moves target camera) d = record d { target = target; camera = camera }
  director_step (frame shot reduced_motion now delta) d = on_frame shot reduced_motion now delta d

  unfoldable pub director_run : List (DirectorStep Real Vector) → Director Vector → Director Vector
  unfolding director_step
  director_run [] d = d
  director_run (x ∷ xs) d = director_run xs (director_step x d)
