-- ===== src/Hooks/MediaQuery.antt =====
-- The media queries' hooks, frontend/src/hooks: useMediaQuery.ts and usePrefersReducedMotion.ts.
use council.Prelude.{
  ◌≡◌, Bool, true, false, ◌&&◌, List, [], ◌∷◌, arith, Key, ◌==◌, if◌then◌else◌, Text, text,
}

-- The browser: whether `window.matchMedia` exists, and its answer to each query.
pub record Browser (Q : Type 0) : Type 0 where
  pub available : Bool
  pub answers : Q → Bool

-- The hook: its query, its state, and whether its listener is attached to the query's list.
pub record MediaQuery (Q : Type 0) : Type 0 where
  pub query : Q
  pub matches : Bool
  pub listening : Bool

module _ {Q : Type 0} where
  -- `matchMediaSafe(query)?.matches ?? false`.
  unfoldable pub matches_now : Browser Q → Q → Bool
  matches_now b q = b.available && b.answers q

  -- The effect of a query; the cleanup of the one before removes its listener.
  unfoldable pub media_effect : Browser Q → Q → MediaQuery Q → MediaQuery Q
  media_effect b q s =
      if b.available
      then record { query = q; matches = b.answers q; listening = true }
      else record s { query = q; listening = false }

  -- The first render and its effect.
  unfoldable pub use_media_query : Browser Q → Q → MediaQuery Q
  unfolding matches_now media_effect
  use_media_query b q =
      media_effect b q (record { query = q; matches = matches_now b q; listening = false })

-- A render with a query, and the browser's answer to one becoming another.
pub data MediaStep (Q : Type 0) : Type 0 where
  renders : Q → MediaStep Q
  turns : Q → Bool → MediaStep Q

module _ {Q : Type 0} ⦃e : Key Q⦄ where
  unfoldable pub media_world : MediaStep Q → Browser Q → Browser Q
  media_world (renders q) b = b
  media_world (turns q m) b = record b { answers = λ r. if r == q then m else b.answers r }

  -- The effect runs only if the query changed; the list of a query tells its listener of a change.
  unfoldable pub media_step : MediaStep Q → Browser Q → MediaQuery Q → MediaQuery Q
  unfolding media_effect
  media_step (renders q) b s = if q == s.query then s else media_effect b q s
  media_step (turns q m) b s = if s.listening && s.query == q then record s { matches = m } else s

  unfoldable pub media_run :
      List (MediaStep Q) → Browser Q × MediaQuery Q → Browser Q × MediaQuery Q
  unfolding media_world media_step
  media_run [] w = w
  media_run (x ∷ xs) w = media_run xs (media_world x w.0, media_step x w.0 w.1)

  -- The hook says what the browser does, and listens where it can.
  pub record IsSynced (w : Browser Q × MediaQuery Q) : Type 0 where
    pub current : w.1.matches ≡ matches_now w.0 w.1.query
    pub attached : w.1.listening ≡ w.0.available

  media_step-IsSynced :
      (x : MediaStep Q) (b : Browser Q) (s : MediaQuery Q)
      → IsSynced (b, s)
      → IsSynced (media_world x b, media_step x b s)
  unfolding media_step media_world matches_now
  media_step-IsSynced (renders q) b s h = record { current = ground arith; attached = ground arith }
  media_step-IsSynced (turns q m) b s h = record { current = ground arith; attached = ground arith }

  media_run-IsSynced :
      (xs : List (MediaStep Q)) (w : Browser Q × MediaQuery Q)
      → IsSynced w
      → IsSynced (media_run xs w)
  unfolding media_run
  media_run-IsSynced [] w h = h
  media_run-IsSynced (x ∷ xs) w h =
      media_run-IsSynced xs (media_world x w.0, media_step x w.0 w.1)
        (media_step-IsSynced x w.0 w.1 h)

  use_media_query-IsSynced : (b : Browser Q) (q : Q) → IsSynced (b, use_media_query b q)
  unfolding use_media_query
  use_media_query-IsSynced b q = record { current = ground arith; attached = ground arith }

  -- Whatever queries the hook is rendered with and whatever the browser's answers become, the hook's
  -- state is the browser's present answer to its present query, and false where there is no
  -- `matchMedia`.
  pub media_run-current :
      (b : Browser Q) (q : Q) (xs : List (MediaStep Q))
      → (media_run xs (b, use_media_query b q)).1.matches ≡ (
          (media_run xs (b, use_media_query b q)).0.available
          && (media_run xs (b, use_media_query b q)).0.answers
              (media_run xs (b, use_media_query b q)).1.query)
  unfolding matches_now
  media_run-current b q xs =
      (media_run-IsSynced xs (b, use_media_query b q) (use_media_query-IsSynced b q)).current

-- `usePrefersReducedMotion`.
unfoldable pub use_prefers_reduced_motion : Browser Text → MediaQuery Text
unfolding use_media_query
use_prefers_reduced_motion b = use_media_query b (text "(prefers-reduced-motion: reduce)")
