-- ===== src/Scene/Manners.antt =====
-- What the camera's director does while the viewer has the controls,
-- frontend/src/three/CameraDirector.tsx.
use council.Prelude.{ℕ, ◌+◌, ◌≤◌, ◌<◌, ◌≡◌, refl, sym, ap, ◌∙◌, true, ◌⊎◌, List, [], ◌∷◌, arith}
use council.Scene.Three.{Three}
use council.Scene.Director.{
  Director, DirectorStep, grabs, moves, frame, user_pause, director_step, director_run, on_start,
  on_frame,
}

-- Within the pause after a grab at `since`: each frame asks for reduced motion or comes before the
-- pause's end, and no grab is earlier.
abbrev pub AllPaused : {R V : Type 0} → ℕ → List (DirectorStep R V) → Type 0
AllPaused since [] = Unit
AllPaused since (grabs now ∷ xs) = (since ≤ now) × AllPaused since xs
AllPaused since (moves target camera ∷ xs) = AllPaused since xs
AllPaused since (frame shot reduced_motion now delta ∷ xs) =
    ((reduced_motion ≡ true) ⊎ (now < since + user_pause)) × AllPaused since xs

abbrev pub view_of : {V : Type 0} → Director V → V × V
view_of d = (d.target, d.camera)

-- Where the viewer left the target and the camera.
abbrev pub left_at : {R V : Type 0} → List (DirectorStep R V) → V × V → V × V
left_at [] view = view
left_at (moves target camera ∷ xs) view = left_at xs (target, camera)
left_at (_ ∷ xs) view = left_at xs view

module _ {R V : Type 0} where
  AllPaused-head :
      (since : ℕ) (x : DirectorStep R V) (xs : List (DirectorStep R V))
      → AllPaused since (x ∷ xs)
      → AllPaused since (x ∷ []) × AllPaused since xs
  AllPaused-head since (grabs now) xs a = ((a.0, tt), a.1)
  AllPaused-head since (moves target camera) xs a = (tt, a)
  AllPaused-head since (frame shot reduced_motion now delta) xs a = ((a.0, tt), a.1)

  left_at-head :
      (x : DirectorStep R V) (xs : List (DirectorStep R V)) (view : V × V)
      → left_at (x ∷ xs) view ≡ left_at xs (left_at (x ∷ []) view)
  left_at-head (grabs now) xs view = refl
  left_at-head (moves target camera) xs view = refl
  left_at-head (frame shot reduced_motion now delta) xs view = refl

module _ (t : Three) where
  open t use {Real, Vector}

  on_frame-paused :
      (since : ℕ) (x : DirectorStep Real Vector) (d : Director Vector)
      → since + user_pause ≤ d.paused_until
      → AllPaused since (x ∷ [])
      → (since + user_pause ≤ (director_step t x d).paused_until)
        × (view_of (director_step t x d) ≡ left_at (x ∷ []) (view_of d))
  unfolding director_step on_start on_frame
  on_frame-paused since (grabs now) d h a = ground arith
  on_frame-paused since (moves target camera) d h a = (h, refl)
  on_frame-paused since (frame shot reduced_motion now delta) d h a = ground arith

  paused_run :
      (since : ℕ) (xs : List (DirectorStep Real Vector)) (d : Director Vector)
      → since + user_pause ≤ d.paused_until
      → AllPaused since xs
      → view_of (director_run t xs d) ≡ left_at xs (view_of d)
  unfolding director_run
  paused_run since [] d h a = refl
  paused_run since (x ∷ xs) d h a =
      let (first, rest) = AllPaused-head since x xs a in
      let kept = on_frame-paused since x d h first in
      paused_run since xs (director_step t x d) kept.0 rest
      ∙ (ap (left_at xs) kept.1 ∙ sym (left_at-head x xs (view_of d)))

  -- The camera yields: once the viewer takes the controls, and as long as every frame comes less than
  -- 2.5 seconds after that or asks for reduced motion, the view is where the viewer last left it.
  pub grab-holds :
      (since : ℕ) (xs : List (DirectorStep Real Vector)) (d : Director Vector)
      → d.controlled ≡ true
      → AllPaused since xs
      → view_of (director_run t (grabs since ∷ xs) d) ≡ left_at xs (view_of d)
  unfolding director_run director_step on_start
  grab-holds since xs d c a =
      let started : on_start t since d ≡ record d { paused_until = since + user_pause } =
        rw (on_start, c) in
      ap (λ e. view_of (director_run t xs e)) started
      ∙ paused_run since xs (record d { paused_until = since + user_pause }) (omega arith) a
