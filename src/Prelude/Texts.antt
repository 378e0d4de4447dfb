-- ===== src/Prelude/Texts.antt =====
-- JavaScript strings as lists of UTF-16 code units.
use Prim.Native.Nat.{ℕ, ◌≤◌}
use Prim.Native.Char.{code}
use Prim.Native.String.{String}
use mathlib.Core.Path.{◌≡◌, ◌∙◌}
use mathlib.Core.List.{List, [], ◌∷◌, ◌++◌}
use native.Mathlib.Omega.{arith}
use council.Prelude.Tests.{ltb, if◌then◌else◌}
use council.Prelude.Lists.{
  length, take, length-take, take-of_length_le, take-take_append, IsPrefix, IsPrefix-take_append,
}

abbrev pub Text : Type 0
Text = List ℕ

-- The code units of an ASCII literal.
abbrev pub text : String → Text
text String.[] = []
text (String.◌∷◌ c s) = code c ∷ text s

-- `s.length > cap ? s.slice(0, cap) : s`, the bound that the reducer and the player put on a text.
unfoldable pub capped : ℕ → Text → Text
capped cap s = if ltb cap (length s) then take cap s else s

pub capped-eq-take : (cap : ℕ) (s : Text) → capped cap s ≡ take cap s
unfolding capped
capped-eq-take cap s = ground (arith, take-of_length_le cap s)

pub length-capped-le : (cap : ℕ) (s : Text) → length (capped cap s) ≤ cap
length-capped-le cap s = rw (capped-eq-take cap s) (omega (arith, length-take cap s))

pub capped-of_length_le : (cap : ℕ) (s : Text) → length s ≤ cap → capped cap s ≡ s
capped-of_length_le cap s h = capped-eq-take cap s ∙ take-of_length_le cap s h

-- Capping after each append and capping once at the end agree.
pub capped-capped_append :
    (cap : ℕ) (s t : Text) → capped cap (capped cap s ++ t) ≡ capped cap (s ++ t)
capped-capped_append cap s t =
    rw (capped-eq-take cap s, capped-eq-take cap (take cap s ++ t), capped-eq-take cap (s ++ t))
      (take-take_append cap s t)

-- What is capped only ever grows at its end.
pub capped-IsPrefix : (cap : ℕ) (s t : Text) → length s ≤ cap → IsPrefix s (capped cap (s ++ t))
capped-IsPrefix cap s t h = rw (capped-eq-take cap (s ++ t)) (IsPrefix-take_append cap s t h)
