-- ===== src/Reveal.antt =====
-- The word-by-word chunking rule, frontend/src/lib/textReveal.ts.
pub mod Laws
use council.Prelude.{
  ℕ, ◌+◌, Bool, ◌||◌, [], ◌∷◌, Text, nat_eq, ltb, if◌then◌else◌, length, drop, min,
}

-- A space, a line feed, a tab or a carriage return.
abbrev pub is_space : ℕ → Bool
is_space ch = nat_eq ch b' ' || nat_eq ch 10 || nat_eq ch 9 || nat_eq ch 13

-- `while (i < text.length && !isSpace(text[i])) i++`, where `rest` is the text from `i` on.
unfoldable pub word_end : Text → ℕ → ℕ
word_end [] i = i
word_end (ch ∷ rest) i = if is_space ch then i else word_end rest (i + 1)

-- `while (i < text.length && isSpace(text[i])) i++`.
unfoldable pub spaces_end : Text → ℕ → ℕ
spaces_end [] i = i
spaces_end (ch ∷ rest) i = if is_space ch then spaces_end rest (i + 1) else i

unfoldable pub next_chunk_end : Text → ℕ → ℕ
unfolding word_end spaces_end
next_chunk_end text pos =
    let w : ℕ = word_end (drop pos text) pos in
    let i : ℕ = spaces_end (drop w text) w in if ltb pos i then i else min (length text) (pos + 1)
