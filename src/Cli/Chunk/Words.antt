-- ===== src/Cli/Chunk/Words.antt =====
-- The byte positions of the words.
use k_engram.Prelude.{
  ℕ, suc, ◌+◌, ◌≤◌, ◌<◌, ◌≡◌, none, some, List, [], ◌∷◌, arith, Bool-cases, inl, inr,
}
use k_engram.Text.{Text, len_utf8, byte_len, is_whitespace}
use k_engram.Cli.Chunk.{word_spans, word_spans_from}

-- The spans stand in order from `lo` to `hi`, none is empty, and two are at least a byte apart.
abbrev pub Apart : ℕ → ℕ → List (ℕ × ℕ) → Type 0
Apart lo hi [] = Unit
Apart lo hi ((a, b) ∷ spans) = (lo ≤ a) × (a < b) × (b ≤ hi) × Apart (suc b) hi spans

len_utf8-pos : (c : ℕ) → 1 ≤ len_utf8 c
unfolding len_utf8
len_utf8-pos c = ground arith

Apart-mono :
    (lo lo' hi : ℕ) (spans : List (ℕ × ℕ)) → lo ≤ lo' → Apart lo' hi spans → Apart lo hi spans
Apart-mono lo lo' hi [] h s = tt
Apart-mono lo lo' hi ((a, b) ∷ spans) h s = (omega arith, s.1, s.2, s.3)

mutual
  unfolding word_spans_from byte_len

  closed-Apart :
      (text : Text) (idx hi : ℕ)
      → hi ≡ idx + byte_len text
      → Apart idx hi (word_spans_from idx none text)
  closed-Apart [] idx hi e = tt
  closed-Apart (c ∷ text) idx hi e = elim (Bool-cases (is_whitespace c)) [
    | inl white ↦
        rw (white, word_spans_from)
          (Apart-mono idx (idx + len_utf8 c) hi _ (omega arith)
            (closed-Apart text (idx + len_utf8 c) hi (omega arith)))
    | inr black ↦
        rw (black, word_spans_from)
          (open-Apart text (idx + len_utf8 c) hi idx (omega (arith, len_utf8-pos c)) (omega arith))
  ]

  open-Apart :
      (text : Text) (idx hi s : ℕ)
      → s < idx
      → hi ≡ idx + byte_len text
      → Apart s hi (word_spans_from idx (some s) text)
  open-Apart [] idx hi s l e = (omega arith, l, omega arith, tt)
  open-Apart (c ∷ text) idx hi s l e = elim (Bool-cases (is_whitespace c)) [
    | inl white ↦
        rw (white, word_spans_from)
          (
            omega arith,
            l,
            omega arith,
            Apart-mono (suc idx) (idx + len_utf8 c) hi _ (omega (arith, len_utf8-pos c))
                (closed-Apart text (idx + len_utf8 c) hi (omega arith)),
          )
    | inr black ↦
        rw (black, word_spans_from)
          (open-Apart text (idx + len_utf8 c) hi s (omega arith) (omega arith))
  ]

-- The word spans of a text stand in order within its bytes, none is empty, and at least a byte
-- lies between two of them.
pub word_spans-Apart : (text : Text) → Apart 0 (byte_len text) (word_spans text)
unfolding word_spans
word_spans-Apart text = closed-Apart text 0 (byte_len text) (omega arith)
