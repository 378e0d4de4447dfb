-- ===== src/Reveal/Laws.antt =====
-- The bounds of a chunk.
use council.Prelude.{ℕ, ◌+◌, ◌≤◌, ◌<◌, [], ◌∷◌, arith, Text, length, drop, length-drop}
use council.Reveal.{word_end, spaces_end, next_chunk_end}

word_end_bounds :
    (rest : Text) (i : ℕ) → (i ≤ word_end rest i) × (word_end rest i ≤ i + length rest)
unfolding word_end
word_end_bounds [] i = omega arith
word_end_bounds (ch ∷ rest) i = ground (arith, word_end_bounds rest (i + 1))

spaces_end_bounds :
    (rest : Text) (i : ℕ) → (i ≤ spaces_end rest i) × (spaces_end rest i ≤ i + length rest)
unfolding spaces_end
spaces_end_bounds [] i = omega arith
spaces_end_bounds (ch ∷ rest) i = ground (arith, spaces_end_bounds rest (i + 1))

-- A chunk that starts within the text is not empty and ends within the text.
pub next_chunk_end_bounds :
    (text : Text) (pos : ℕ)
    → pos < length text
    → (pos < next_chunk_end text pos) × (next_chunk_end text pos ≤ length text)
unfolding next_chunk_end
next_chunk_end_bounds text pos h =
    let w : ℕ = word_end (drop pos text) pos in
    ground (
      arith,
      word_end_bounds (drop pos text) pos,
      spaces_end_bounds (drop w text) w,
      length-drop pos text,
      length-drop w text,
    )
