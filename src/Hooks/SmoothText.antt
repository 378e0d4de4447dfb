-- ===== src/Hooks/SmoothText.antt =====
-- The paced display of a growing text, frontend/src/hooks/useSmoothText.ts. A step's product with
-- 0.18 is exact here, where the source's is a floating-point number.
use council.Prelude.{
  ℕ, zero, suc, ◌+◌, ◌-◌, ◌*◌, ◌/◌, ◌≤◌, ◌<◌, ◌≡◌, refl, Bool, true, false, not, ◌||◌, Text, ltb,
  leb, if◌then◌else◌, length, take, take-of_length_le, min, max, arith, Bool-cases, inl, inr,
}

abbrev pub min_step : ℕ
min_step = 2

-- `revealed` is the count of characters, which the hook's state and its ref agree on; `frame` is
-- whether an animation frame is requested.
pub record SmoothText : Type 0 where
  pub revealed : ℕ
  pub frame : Bool

-- The first render of a text.
abbrev pub new_smooth_text : Text → SmoothText
new_smooth_text target = record { revealed = length target; frame = false }

-- The effect of a text; the cleanup of the one before cancels its frame.
unfoldable pub smooth_effect : Text → Bool → Bool → SmoothText → SmoothText
smooth_effect target animate reduced_motion s =
    if not animate || reduced_motion
    then record { revealed = length target; frame = false }
    else record {
      revealed = if ltb (length target) s.revealed then length target else s.revealed;
      frame = true;
    }

-- `Math.max(MIN_STEP, Math.ceil(gap * 0.18))`.
unfoldable pub smooth_step : ℕ → ℕ
smooth_step gap = max min_step ((gap * 18 + 99) / 100)

-- The frame's callback.
unfoldable pub smooth_tick : Text → SmoothText → SmoothText
unfolding smooth_step
smooth_tick target s =
    if leb (length target) s.revealed then record s { frame = false } else record {
      revealed = min (length target) (s.revealed + smooth_step (length target - s.revealed));
      frame = true;
    }

-- The requested frames, one after the other.
unfoldable pub smooth_ticks : ℕ → Text → SmoothText → SmoothText
unfolding smooth_tick
smooth_ticks zero target s = s
smooth_ticks (suc n) target s =
    let next : SmoothText = smooth_ticks n target (smooth_tick target s) in
    if s.frame then next else s

-- What the hook returns.
unfoldable pub smooth_text : Text → SmoothText → Text
smooth_text target s = take (min s.revealed (length target)) target

smooth_tick-gains :
    (target : Text) (s : SmoothText)
    → s.revealed < length target
    → (s.revealed < (smooth_tick target s).revealed)
      × ((smooth_tick target s).revealed ≤ length target)
unfolding smooth_tick smooth_step
smooth_tick-gains target s h = ground arith

smooth_tick-stops :
    (target : Text) (s : SmoothText)
    → leb (length target) s.revealed ≡ true
    → ((smooth_tick target s).revealed ≡ s.revealed) × ((smooth_tick target s).frame ≡ false)
unfolding smooth_tick
smooth_tick-stops target s h = ground arith

smooth_ticks-idle :
    (n : ℕ) (target : Text) (s : SmoothText) → s.frame ≡ false → smooth_ticks n target s ≡ s
unfolding smooth_ticks
smooth_ticks-idle zero target s h = refl
smooth_ticks-idle (suc n) target s h = rw h refl

smooth_ticks-ends :
    (n : ℕ) (target : Text) (s : SmoothText)
    → s.revealed ≤ length target
    → length target < s.revealed + n
    → s.frame ≡ true
    → ((smooth_ticks n target s).revealed ≡ length target)
      × ((smooth_ticks n target s).frame ≡ false)
unfolding smooth_ticks
smooth_ticks-ends zero target s h m f = absurd (omega arith)
smooth_ticks-ends (suc n) target s h m f = elim (Bool-cases (leb (length target) s.revealed)) [
  | inl e ↦
      ground
        (arith, smooth_tick-stops target s e, smooth_ticks-idle n target (smooth_tick target s))
  | inr e ↦ ground (
    arith,
    smooth_tick-gains target s (ground arith),
    smooth_ticks-ends n target (smooth_tick target s),
  )
]

whole_text :
    (target : Text) (s : SmoothText) → s.revealed ≡ length target → smooth_text target s ≡ target
unfolding smooth_text
whole_text target s e = take-of_length_le (min s.revealed (length target)) target (omega arith)

-- Under an effect that animates, whatever was revealed before, the whole text is shown and no frame
-- is requested any more after as many frames as it has characters, and one.
pub smooth_text-ends :
    (target : Text) (s : SmoothText)
    → let shown : SmoothText =
        smooth_ticks (length target + 1) target (smooth_effect target true false s) in
      (smooth_text target shown ≡ target) × (shown.frame ≡ false)
unfolding smooth_effect smooth_text
smooth_text-ends target s =
    let start : SmoothText = smooth_effect target true false s in
    let (all, stopped) =
      smooth_ticks-ends (length target + 1) target start (ground arith) (ground arith) refl in
    (whole_text target (smooth_ticks (length target + 1) target start) all, stopped)
