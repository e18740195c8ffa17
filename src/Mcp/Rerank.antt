-- ===== src/Mcp/Rerank.antt =====
-- The rerank stage of crates/kengram-mcp/src/search.rs, with the trait `Reranker` of
-- crates/kengram-embed/src/reranker.rs. The backend behind the trait is a parameter.
pub mod Batches
pub mod Pool
pub mod Written
pub mod Tests
use k_engram.Prelude.{
  ℕ, zero, suc, ◌+◌, ◌*◌, Bool, true, false, ◌&&◌, ◌||◌, not, List, [], ◌∷◌, ◌++◌, map, Option,
  none, some, ◌==◌, ltb, leb, if◌then◌else◌, Result, ok, err, and_then, unwrap_or, is_empty, length,
  any, all, take, drop, min, retain,
}
use k_engram.Text.{
  Text, codes, contains, to_ascii_lowercase, eq_ignore_ascii_case, is_ascii_digit,
  is_ascii_alphabetic, trim_start_matches, elem,
}
use k_engram.Unicode.{Unicode}
use k_engram.Dedupe.{dedupe}
use k_engram.Float.{Float}
use k_engram.Sorting.{sort}
use k_engram.Core.Fusion.{Hit, ChunkProvenance}
use k_engram.Mcp.Expansion.{raw_tokens, clean_token, is_strong_identifier}

abbrev pub rerank_backend_max_batch : ℕ
rerank_backend_max_batch = 32

pub data RerankerError : Type 0 where
  r_timeout : ℕ → RerankerError
  r_unreachable : Text → RerankerError
  r_malformed_response : Text → RerankerError
  r_backend : ℕ → Text → RerankerError
  r_misconfigured : Text → RerankerError

module _ {A : Type 0} where
  -- `chunks(n)`, on fuel for the number of slices.
  unfoldable pub chunks_fuel : ℕ → ℕ → List A → List (List A)
  chunks_fuel zero n xs = []
  chunks_fuel (suc fuel) n xs =
      let rest = chunks_fuel fuel n (drop n xs) in if is_empty xs then [] else take n xs ∷ rest

  abbrev pub chunks : ℕ → List A → List (List A)
  chunks n xs = chunks_fuel (length xs) n xs

  -- `enumerate` from an index on, with the offset of each slice.
  unfoldable pub with_offsets : ℕ → ℕ → List (List A) → List (ℕ × List A)
  with_offsets n i [] = []
  with_offsets n i (batch ∷ batches) = (i * n, batch) ∷ with_offsets n (i + 1) batches

module _ (fl : Float) where
  open fl use {F, of_ℕ, decimal, add, lt, f32_min}

  pub record RerankScore : Type 0 where
    pub index : ℕ
    pub score : F

  -- `Reranker::rerank`.
  abbrev pub Reranker : Type 0
  Reranker = Text → List Text → Result RerankerError (List RerankScore)

  abbrev pub shift : ℕ → RerankScore → RerankScore
  shift batch_offset s = record { index = s.index + batch_offset; score = s.score }

  unfoldable pub rerank_one_batch :
      Reranker → Text → List Text → ℕ → Result RerankerError (List RerankScore)
  rerank_one_batch reranker query batch batch_offset =
      and_then (reranker query batch) (λ scores. ok (map (shift batch_offset) scores))

  abbrev pub rerank_slice :
      Reranker → Text → ℕ × List Text → Result RerankerError (List RerankScore)
  rerank_slice reranker query (offset, batch) = rerank_one_batch reranker query batch offset

  -- The loop over the slices.
  unfoldable pub rerank_loop :
      Reranker → Text → List (ℕ × List Text) → Result RerankerError (List RerankScore)
  rerank_loop reranker query [] = ok []
  rerank_loop reranker query (slice ∷ slices) =
      and_then (rerank_slice reranker query slice)
        (λ a. and_then (rerank_loop reranker query slices) (λ rest. ok (a ++ rest)))

  -- The arms of the `match`; the second slice of two is also asked if the first one fails.
  unfoldable pub rerank_slices :
      Reranker → Text → List (ℕ × List Text) → Result RerankerError (List RerankScore)
  rerank_slices reranker query [] = ok []
  rerank_slices reranker query (slice ∷ []) = rerank_slice reranker query slice
  rerank_slices reranker query (slice_a ∷ slice_b ∷ []) =
      and_then (rerank_slice reranker query slice_a)
        (λ a. and_then (rerank_slice reranker query slice_b) (λ b. ok (a ++ b)))
  rerank_slices reranker query (slice_a ∷ slice_b ∷ slice_c ∷ slices) =
      rerank_loop reranker query (slice_a ∷ slice_b ∷ slice_c ∷ slices)

  unfoldable pub rerank_candidates_batched :
      Reranker → Text → List Text → Result RerankerError (List RerankScore)
  rerank_candidates_batched reranker query candidates =
      rerank_slices reranker query
        (with_offsets rerank_backend_max_batch 0 (chunks rerank_backend_max_batch candidates))

  -- The content of the chunk of a hit, or else of its thought.
  abbrev pub chunk_content : Option ChunkProvenance → Text → Text
  chunk_content none content = content
  chunk_content (some chunk) content = chunk.content

  abbrev pub candidate_of : Hit fl → Text
  candidate_of h = chunk_content h.chunk h.thought.content

  -- `if let Some(hit) = hits.get_mut(i) { hit.rerank_score = … }`.
  unfoldable pub set_score : ℕ → F → List (Hit fl) → List (Hit fl)
  set_score i score [] = []
  set_score zero score (h ∷ hits) = record h { rerank_score = some score } ∷ hits
  set_score (suc i) score (h ∷ hits) = h ∷ set_score i score hits

  unfoldable pub write_scores : List RerankScore → List (Hit fl) → List (Hit fl)
  write_scores [] hits = hits
  write_scores (s ∷ scores) hits = write_scores scores (set_score s.index s.score hits)

  -- The loop of `exact_identifier_match_score`.
  unfoldable pub match_score : Text → List (Text × F) → F → F
  match_score haystack [] boost = boost
  match_score haystack ((term, weight) ∷ terms) boost =
      match_score haystack terms (if contains term haystack then add boost weight else boost)

  unfoldable pub exact_identifier_match_score : Hit fl → List (Text × F) → F
  exact_identifier_match_score hit terms =
      match_score (to_ascii_lowercase (candidate_of hit)) terms (of_ℕ 0)

  abbrev pub fmin : F → F → F
  fmin a b = if lt b a then b else a

  unfoldable pub boost_match : List (Text × F) → Hit fl → Hit fl
  boost_match terms hit =
      let boost = exact_identifier_match_score hit terms in
      if lt (of_ℕ 0) boost
      then record hit {
        rerank_score = some (add (unwrap_or hit.rerank_score (of_ℕ 0)) (fmin boost (decimal 75 2)));
      }
      else hit

  -- A higher score comes first.
  unfoldable pub reranks_before : Hit fl → Hit fl → Bool
  reranks_before a b = lt (unwrap_or b.rerank_score f32_min) (unwrap_or a.rerank_score f32_min)

  module _ (u : Unicode) where
    abbrev pub strong_term : Text → List (Text × F)
    strong_term token =
        if is_strong_identifier token then (to_ascii_lowercase token, decimal 55 2) ∷ [] else []

    abbrev pub strong_terms : List Text → List (Text × F)
    strong_terms [] = []
    strong_terms (token ∷ tokens) = strong_term token ++ strong_terms tokens

    -- The body of the loop over `windows(2)`.
    abbrev pub window_terms : Text → Text → List (Text × F)
    window_terms left right =
        (if any is_ascii_alphabetic left && any is_ascii_digit right
          then (to_ascii_lowercase (left ++ codes " " ++ right), decimal 55 2) ∷ []
          else [])
        ++ (if eq_ignore_ascii_case left (codes "pr")
              && all is_ascii_digit (trim_start_matches (λ c. c == b'#') right)
            then (to_ascii_lowercase (codes "PR " ++ right), decimal 55 2) ∷ []
            else [])

    unfoldable pub pair_terms : List Text → List (Text × F)
    pair_terms [] = []
    pair_terms (left ∷ []) = []
    pair_terms (left ∷ right ∷ tokens) = window_terms left right ++ pair_terms (right ∷ tokens)

    -- `seen.insert(term)` lets the first pair of each term through.
    unfoldable pub unseen_terms : List Text → List (Text × F) → List (Text × F)
    unseen_terms seen [] = []
    unseen_terms seen ((term, weight) ∷ terms) =
        let rest = unseen_terms seen terms in
        let rest_seen = unseen_terms (term ∷ seen) terms in
        if elem term seen then rest else (term, weight) ∷ rest_seen

    unfoldable pub exact_identifier_boost_terms : Text → List (Text × F)
    exact_identifier_boost_terms query =
        let tokens =
          retain (λ token. not (is_empty token)) (map clean_token (raw_tokens u query)) in
        unseen_terms [] (strong_terms tokens ++ pair_terms tokens)

    -- `apply_exact_identifier_boost` on the whole of a slice.
    unfoldable pub apply_exact_identifier_boost : Text → List (Hit fl) → List (Hit fl)
    apply_exact_identifier_boost query hits =
        let terms = exact_identifier_boost_terms query in
        if is_empty terms then hits else map (boost_match terms) hits

    -- What is done with the scores: `hits[..pool_len]` is boosted in place, and the rest cut off.
    unfoldable pub order_by_scores :
        Text → List (Hit fl) → ℕ → Bool → List RerankScore → List (Hit fl)
    order_by_scores query hits pool_len exact_identifier_boost_enabled scores =
        let scored = write_scores scores hits in
        let boosted =
          if exact_identifier_boost_enabled
          then apply_exact_identifier_boost query (take pool_len scored) ++ drop pool_len scored
          else scored in
        sort reranks_before (take pool_len boosted)

    abbrev pub reranked :
        List (Hit fl)
        → (List RerankScore → List (Hit fl))
        → Result RerankerError (List RerankScore)
        → List (Hit fl) × Bool
    reranked hits order (err e) = (hits, false)
    reranked hits order (ok scores) = (order scores, true)

    unfoldable pub apply_rerank_to_thought_hits :
        Reranker → Text → List (Hit fl) → ℕ → Bool → List (Hit fl) × Bool
    apply_rerank_to_thought_hits reranker query hits candidate_pool exact_identifier_boost_enabled =
        if is_empty hits
        then (hits, false)
        else let pool_len = min candidate_pool (length hits) in
          reranked hits (order_by_scores query hits pool_len exact_identifier_boost_enabled)
            (rerank_candidates_batched reranker query (map candidate_of (take pool_len hits)))
