-- ===== src/Cli/Chunk.antt =====
-- crates/kengram-cli/src/chunk.rs: cutting a thought into overlapping, sentence-aware chunks of
-- words. The loop of `chunk_spans` takes fuel; `none` means that the fuel ran out.
pub mod Boundary
pub mod Cover
pub mod Termination
pub mod Words
pub mod Tests
use k_engram.Prelude.{
  ℕ, zero, suc, ◌+◌, ◌-◌, ◌*◌, ◌/◌, min, max, Bool, true, false, ◌&&◌, ◌||◌, List, [], ◌∷◌, map,
  Option, none, some, ltb, leb, ◌==◌, if◌then◌else◌, length, get_elem?, Result, ok, err,
}
use k_engram.Text.{Text, len_utf8, is_whitespace}

pub record ChunkParams : Type 0 where
  pub min_parent_words : ℕ
  pub target_words : ℕ
  pub max_words : ℕ
  pub overlap_words : ℕ

pub data ParamError : Type 0 where
  limits_not_positive target_above_max overlap_not_below_target : ParamError

-- `validate_chunk_params`.
unfoldable pub validate_chunk_params : ChunkParams → Result ParamError (Unit {0})
validate_chunk_params p =
    if p.min_parent_words == 0 || p.target_words == 0 || p.max_words == 0
    then err limits_not_positive
    else if ltb p.max_words p.target_words
    then err target_above_max
    else if leb p.target_words p.overlap_words
    then err overlap_not_below_target
    else ok tt

-- `word_spans`: the byte positions of the words. `start` is the open word, if any.
unfoldable pub word_spans_from : ℕ → Option ℕ → Text → List (ℕ × ℕ)
word_spans_from idx none [] = []
word_spans_from idx (some s) [] = (s, idx) ∷ []
word_spans_from idx none (c ∷ text) =
    word_spans_from (idx + len_utf8 c) (if is_whitespace c then none else some idx) text
word_spans_from idx (some s) (c ∷ text) =
    let closed = (s, idx) ∷ word_spans_from (idx + len_utf8 c) none text in
    let longer = word_spans_from (idx + len_utf8 c) (some s) text in
    if is_whitespace c then closed else longer

unfoldable pub word_spans : Text → List (ℕ × ℕ)
unfolding word_spans_from
word_spans text = word_spans_from 0 none text

-- `text[..end].chars().next_back()`.
unfoldable pub char_before : Option ℕ → Text → ℕ → Option ℕ
unfolding len_utf8
char_before last text zero = last
char_before last [] (suc n) = last
char_before last (c ∷ text) (suc n) = char_before (some c) text (suc n - len_utf8 c)

abbrev is_sentence_end : Option ℕ → Bool
is_sentence_end none = false
is_sentence_end (some c) = c == b'.' || c == b'!' || c == b'?' || c == b';' || c == b':'

abbrev word_end : Option (ℕ × ℕ) → ℕ
word_end none = 0
word_end (some (a, b)) = b

-- Whether word `idx - 1` ends a sentence: the test `punct` of `best_sentence_boundary`.
unfoldable pub punct_at : Text → List (ℕ × ℕ) → ℕ → Bool
unfolding char_before
punct_at text words idx =
    is_sentence_end (char_before none text (word_end (get_elem? words (idx - 1))))

abbrev pub or_hard_end : ℕ → Option ℕ → ℕ
or_hard_end hard_end none = hard_end
or_hard_end hard_end (some boundary) = boundary

abbrev pub put : ℕ × ℕ → Option (List (ℕ × ℕ)) → Option (List (ℕ × ℕ))
put r none = none
put r (some rs) = some (r ∷ rs)

-- Cutting `n` words, of which `punct` says where a sentence ends.
module _ (punct : ℕ → Bool) (n : ℕ) (p : ChunkParams) where
  open p use {target_words, max_words, overlap_words}

  -- The loop of `best_sentence_boundary`: the last boundary of the `rounds` places from `idx` on.
  unfoldable pub last_boundary : ℕ → ℕ → Option ℕ → Option ℕ
  last_boundary zero idx best = best
  last_boundary (suc rounds) idx best =
      last_boundary rounds (idx + 1) (if punct idx then some idx else best)

  unfoldable pub best_sentence_boundary : ℕ → ℕ → ℕ → Option ℕ
  unfolding last_boundary
  best_sentence_boundary start target_end hard_end =
      let min_end = max (start + (target_end - start) * 2 / 3) (start + 1) in
      last_boundary (hard_end + 1 - min_end) min_end none

  -- Where the chunk that starts at word `start` ends.
  unfoldable pub chunk_end : ℕ → ℕ
  unfolding best_sentence_boundary
  chunk_end start =
      let hard_end = min (start + max_words) n in
      or_hard_end hard_end (best_sentence_boundary start (min (start + target_words) n) hard_end)

  -- The `while` loop of `chunk_spans`, as ranges of word indices.
  unfoldable pub chunk_ranges : ℕ → ℕ → Option (List (ℕ × ℕ))
  unfolding chunk_end
  chunk_ranges zero start = none
  chunk_ranges (suc fuel) start =
      let stop = chunk_end start in
      let rest = chunk_ranges fuel (stop - overlap_words) in
      if ltb start n
      then (if leb (n - start) max_words && leb (n - start) (target_words + overlap_words)
          then some ((start, n) ∷ [])
          else if leb stop start
          then some []
          else if leb n stop
          then some ((start, stop) ∷ [])
          else put (start, stop) rest)
      else some []

pub record ChunkSpan : Type 0 where
  pub start_char : ℕ
  pub end_char : ℕ
  pub word_count : ℕ

abbrev word_start : Option (ℕ × ℕ) → ℕ
word_start none = 0
word_start (some (a, b)) = a

-- The indices are in range, since no range is empty or ends behind the last word.
unfoldable pub span_from_words : List (ℕ × ℕ) → ℕ × ℕ → ChunkSpan
span_from_words words (start, stop) = record {
  start_char = word_start (get_elem? words start);
  end_char = word_end (get_elem? words (stop - 1));
  word_count = stop - start;
}

unfoldable pub chunk_spans : ℕ → Text → ChunkParams → Option (List ChunkSpan)
chunk_spans fuel text p =
    let words = word_spans text in
    if ltb (length words) p.min_parent_words
    then some []
    else elim (chunk_ranges (punct_at text words) (length words) p fuel 0) [
      | none ↦ none
      | some rs ↦ some (map (span_from_words words) rs)
    ]
