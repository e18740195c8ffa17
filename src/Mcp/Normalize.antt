-- ===== src/Mcp/Normalize.antt =====
-- crates/kengram-mcp/src/normalize.rs: the snapping of emitted topics to the scope's vocabulary.
pub mod Levenshtein
pub mod Topics
pub mod Tests
use k_engram.Prelude.{
  ℕ, zero, suc, ◌+◌, Bool, true, false, ◌&&◌, ◌||◌, not, List, [], ◌∷◌, map, Option, none, some,
  ◌==◌, if◌then◌else◌, is_empty, length, all, min, max,
}
use k_engram.Text.{Text, text_eq, elem, split}
use k_engram.Unicode.{Unicode}
use k_engram.Float.{Float, le?}
use k_engram.Dedupe.{dedupe}

-- `0..=n`, counted from `i`.
unfoldable pub count_from : ℕ → Text → List ℕ
count_from i [] = i ∷ []
count_from i (c ∷ s) = i ∷ count_from (suc i) s

-- The inner loop: `left` is `curr[j]`, and the row begins at `prev[j]`.
unfoldable pub next_cells : ℕ → ℕ → List ℕ → Text → List ℕ
next_cells ca left (diagonal ∷ above ∷ prev) (cb ∷ bs) =
    let cell = min (min (above + 1) (left + 1)) (diagonal + (if ca == cb then 0 else 1)) in
    cell ∷ next_cells ca cell (above ∷ prev) bs
next_cells ca left _ _ = []

-- The outer loop; `i` rows are done.
unfoldable pub rows : ℕ → Text → List ℕ → Text → List ℕ
unfolding next_cells
rows i b prev [] = prev
rows i b prev (ca ∷ as') = rows (suc i) b (suc i ∷ next_cells ca (suc i) prev b) as'

-- `prev[i]`; the row is as long as the text and one, so the index is in range.
unfoldable pub cell_at : List ℕ → ℕ → ℕ
cell_at [] i = 0
cell_at (n ∷ row) zero = n
cell_at (n ∷ row) (suc i) = cell_at row i

unfoldable pub levenshtein : Text → Text → ℕ
unfolding count_from rows cell_at
levenshtein a b =
    if is_empty a
    then length b
    else if is_empty b
    then length a
    else cell_at (rows 0 b (count_from 0 b) a) (length b)

-- The set of a term's tokens.
unfoldable pub token_set : Text → List Text
token_set s = dedupe (λ t. t) (λ n. false) (split (λ c. c == b'-') s)

abbrev is_subset : List Text → List Text → Bool
is_subset xs ys = all (λ x. elem x ys) xs

unfoldable pub token_subset : Text → Text → Bool
unfolding token_set
token_subset a b =
    if length (token_set a) == length (token_set b)
    then false
    else is_subset (token_set a) (token_set b) || is_subset (token_set b) (token_set a)

module _ (fl : Float) (u : Unicode) where
  open fl use {F, of_ℕ, decimal, sub, div, lt}
  open u use {to_lowercase}

  -- `0.8`, both the threshold and the score of a token subset.
  abbrev pub threshold : F
  threshold = decimal 8 1

  unfoldable pub levenshtein_ratio : Text → Text → F
  levenshtein_ratio a b =
      if max (length a) (length b) == 0
      then decimal 10 1
      else sub (decimal 10 1) (div (of_ℕ (levenshtein a b)) (of_ℕ (max (length a) (length b))))

  -- `x.max(y)` of two numbers.
  abbrev float_max : F → F → F
  float_max x y = if lt x y then y else x

  unfoldable pub similarity : Text → Text → F
  similarity a b =
      if text_eq a b
      then decimal 10 1
      else float_max (levenshtein_ratio a b) (if token_subset a b then threshold else decimal 0 1)

  -- One step of `filter` and `max_by`: of two equal scores the later one stays.
  abbrev better : Text → F → Option (Text × F) → Option (Text × F)
  better v score none = some (v, score)
  better v score (some (w, best)) = if lt score best then some (w, best) else some (v, score)

  unfoldable pub best_term : Text → Option (Text × F) → List Text → Option (Text × F)
  best_term lowered best [] = best
  best_term lowered best (v ∷ vocab) =
      let score = similarity lowered (to_lowercase v) in
      let taken = best_term lowered (better v score best) vocab in
      let left = best_term lowered best vocab in if le? fl threshold score then taken else left

  abbrev canonical_or : Text → Option (Text × F) → Text
  canonical_or emitted none = emitted
  canonical_or emitted (some (v, score)) = v

  unfoldable pub normalize_one : Text → List Text → Text
  normalize_one emitted vocab = canonical_or emitted (best_term (to_lowercase emitted) none vocab)

  unfoldable pub normalize_topics : List Text → List Text → List Text
  normalize_topics emitted vocab =
      if is_empty vocab
      then emitted
      else dedupe (λ t. t) (λ n. false) (map (λ t. normalize_one t vocab) emitted)
