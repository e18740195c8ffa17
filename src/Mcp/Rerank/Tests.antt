-- ===== src/Mcp/Rerank/Tests.antt =====
-- A backend that scores a text by its length, and two hits; scores in thousandths.
use mathlib.Core.List.{Perm}
use k_engram.Prelude.{
  ℕ, zero, suc, ◌+◌, ◌≤◌, ◌<◌, true, false, List, [], ◌∷◌, map, none, some, ◌≡◌, refl, arith, ok,
  err, length, take, min, get_elem?, subst, sym,
}
use k_engram.Text.{
  Text, codes, is_ascii_alphanumeric, trim_matches, trim, byte_len, ends_with, to_ascii_lowercase,
  drop_empty, split, elem, eq_ignore_ascii_case,
}
use k_engram.Unicode.{ascii}
use k_engram.Float.{thousandths}
use k_engram.Sorting.{sort}
use k_engram.Core.Fusion.{Hit}
use k_engram.Core.Tags.{default_tags}
use k_engram.Mcp.Rerank.{
  RerankScore, Reranker, r_timeout, reranks_before, apply_rerank_to_thought_hits,
  rerank_candidates_batched, rerank_slices, rerank_one_batch, with_offsets, chunks_fuel,
  exact_identifier_boost_terms, unseen_terms, pair_terms,
}
use k_engram.Mcp.Rerank.Batches.{scores_at, expected, OnePerCandidate}
use k_engram.Mcp.Rerank.Pool.{thoughts, apply_rerank_to_thought_hits_lem}
use k_engram.Mcp.Rerank.Written.{rescored, boosted, apply_rerank_to_thought_hits_rescores}
use k_engram.Mcp.Expansion.{
  raw_tokens, tokens_from, clean_token, is_strong_identifier, looks_like_hash, looks_like_file_path,
}

abbrev scores_from : ℕ → List Text → List (RerankScore thousandths)
scores_from k [] = []
scores_from k (c ∷ cs) = record { index = k; score = length c } ∷ scores_from (k + 1) cs

abbrev by_length : Reranker thousandths
by_length query batch = ok (scores_from 0 batch)

abbrev failing : Reranker thousandths
failing query batch = err (r_timeout 5)

scores_from-below :
    (i k : ℕ) (cs : List Text) → i < k → scores_at thousandths i (scores_from k cs) ≡ []
scores_from-below i k [] h = refl
scores_from-below i k (c ∷ cs) h = ground (arith, scores_from-below i (k + 1) cs)

scores_from-at :
    (j k : ℕ) (cs : List Text)
    → scores_at thousandths (j + k) (scores_from k cs)
      ≡ expected thousandths length (j + k) (get_elem? cs j)
scores_from-at j k [] = refl
scores_from-at zero k (c ∷ cs) =
    let here : 0 + k ≡ k = omega arith in
    let first : scores_at thousandths k (scores_from k (c ∷ cs))
        ≡ expected thousandths length k (some c) =
      ground (arith, scores_from-below k (k + 1) cs) in
    subst
      (λ i.
        scores_at thousandths i (scores_from k (c ∷ cs)) ≡ expected thousandths length i (some c))
      (sym here) first
scores_from-at (suc j) k (c ∷ cs) =
    let behind : j + (k + 1) ≡ suc j + k = omega arith in
    let later =
      subst
        (λ i.
          scores_at thousandths i (scores_from (k + 1) cs)
          ≡ expected thousandths length i (get_elem? cs j))
        behind (scores_from-at j (k + 1) cs) in
    ground (arith, later)

abbrev hit : ℕ → Text → Hit thousandths
hit n content = record {
  thought = record {
    id = record { uuid = n };
    content = content;
    tags = default_tags;
    created_at = 0;
  };
  vector_score = none;
  lexical_score = none;
  trigram_score = none;
  rrf_score = some 10;
  rerank_score = none;
  chunk = none;
}

abbrev hits : List (Hit thousandths)
hits = hit 1 (codes "note") ∷ hit 2 (codes "longer note") ∷ hit 3 (codes "n") ∷ []

by_length-OnePerCandidate :
    (query : Text) (batch : List Text)
    → length batch ≤ 32
    → (scores : List (RerankScore thousandths)) × (by_length query batch ≡ ok scores)
      × OnePerCandidate thousandths length batch scores
by_length-OnePerCandidate query batch h = (
  scores_from 0 batch,
  refl,
  λ i.
      let same : i + 0 ≡ i = omega arith in
      subst
        (λ j.
          scores_at thousandths j (scores_from 0 batch)
          ≡ expected thousandths length j (get_elem? batch i))
        same (scores_from-at i 0 batch),
)

apply_rerank_to_thought_hits_lem_example :
    ((apply_rerank_to_thought_hits thousandths ascii by_length (codes "note") hits 2 true).1 ≡ false
      → (apply_rerank_to_thought_hits thousandths ascii by_length (codes "note") hits 2 true).0
        ≡ hits)
    × ((apply_rerank_to_thought_hits thousandths ascii by_length (codes "note") hits 2 true).1
          ≡ true
        → Perm
            (thoughts thousandths
              (apply_rerank_to_thought_hits thousandths ascii by_length
                (codes "note")
                hits
                2
                true).0)
            (thoughts thousandths (take (min 2 (length hits)) hits)))
apply_rerank_to_thought_hits_lem_example =
    apply_rerank_to_thought_hits_lem thousandths ascii by_length (codes "note") hits 2 true

apply_rerank_to_thought_hits_rescores_example :
    apply_rerank_to_thought_hits thousandths ascii by_length (codes "note") hits 2 true ≡ (
      sort (reranks_before thousandths) (
          boosted thousandths ascii true
            (codes "note")
            (map (rescored thousandths length) (take 2 hits))),
      true,
    )
apply_rerank_to_thought_hits_rescores_example =
    apply_rerank_to_thought_hits_rescores thousandths ascii length by_length (codes "note")
      (by_length-OnePerCandidate (codes "note")) (hit 1 (codes "note"))
      (hit 2 (codes "longer note") ∷ hit 3 (codes "n") ∷ []) 2 true

left_alone :
    apply_rerank_to_thought_hits thousandths ascii failing (codes "note") hits 2 true
    ≡ (hits, false)
unfolding apply_rerank_to_thought_hits rerank_candidates_batched rerank_slices rerank_one_batch
    with_offsets chunks_fuel
left_alone = refl

terms_of_query :
    exact_identifier_boost_terms thousandths ascii (codes "see PR 12 and v2.rs")
    ≡ (codes "v2.rs", 550) ∷ (codes "pr 12", 550) ∷ (codes "and v2.rs", 550) ∷ []
unfolding exact_identifier_boost_terms unseen_terms pair_terms raw_tokens tokens_from clean_token
    is_strong_identifier looks_like_hash looks_like_file_path is_ascii_alphanumeric trim_matches
    trim byte_len ends_with to_ascii_lowercase drop_empty split elem eq_ignore_ascii_case
terms_of_query = refl
