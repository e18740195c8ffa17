-- ===== src/Mcp/Rerank/Pool.antt =====
-- The rerank stage of crates/kengram-mcp/src/search.rs keeps to the hits of its pool, whatever the
-- backend answers.
use mathlib.Core.List.{Perm, map-append}
use mathlib.Core.List.Perm
use k_engram.Prelude.{
  ℕ, zero, suc, Bool, true, false, List, [], ◌∷◌, ◌++◌, map, ◌≡◌, refl, ◌∙◌, ap, sym, subst, inl,
  inr, if◌then◌else◌, Bool-cases, Result, ok, err, is_empty, length, take, drop, min,
}
use k_engram.Text.{Text}
use k_engram.Unicode.{Unicode}
use k_engram.Float.{Float}
use k_engram.Sorting.{sort, sort-perm}
use k_engram.Core.Fusion.{Hit, Thought}
use k_engram.Mcp.Rerank.{
  RerankerError, RerankScore, Reranker, candidate_of, set_score, write_scores, boost_match,
  exact_identifier_match_score, exact_identifier_boost_terms, apply_exact_identifier_boost,
  order_by_scores, reranked, rerank_candidates_batched, reranks_before,
  apply_rerank_to_thought_hits,
}

module _ {A : Type 0} where
  pub map-take :
      {B : Type 0} (f : A → B) (n : ℕ) (xs : List A) → map f (take n xs) ≡ take n (map f xs)
  map-take f zero xs = refl
  map-take f (suc n) [] = refl
  map-take f (suc n) (x ∷ xs) = ap (λ ys. f x ∷ ys) (map-take f n xs)

  pub take-append-drop : (n : ℕ) (xs : List A) → take n xs ++ drop n xs ≡ xs
  take-append-drop zero xs = refl
  take-append-drop (suc n) [] = refl
  take-append-drop (suc n) (x ∷ xs) = ap (λ ys. x ∷ ys) (take-append-drop n xs)

module _ (fl : Float) where
  abbrev pub thoughts : List (Hit fl) → List Thought
  thoughts = map (λ h. h.thought)

  thoughts-set_score :
      (i : ℕ) (score : fl.F) (hits : List (Hit fl))
      → thoughts (set_score fl i score hits) ≡ thoughts hits
  unfolding set_score
  thoughts-set_score i score [] = refl
  thoughts-set_score zero score (h ∷ hits) = refl
  thoughts-set_score (suc i) score (h ∷ hits) =
      ap (λ ts. h.thought ∷ ts) (thoughts-set_score i score hits)

  thoughts-write_scores :
      (scores : List (RerankScore fl)) (hits : List (Hit fl))
      → thoughts (write_scores fl scores hits) ≡ thoughts hits
  unfolding write_scores
  thoughts-write_scores [] hits = refl
  thoughts-write_scores (s ∷ scores) hits =
      thoughts-write_scores scores (set_score fl s.index s.score hits)
      ∙ thoughts-set_score s.index s.score hits

  thought-boost_match :
      (terms : List (Text × fl.F)) (h : Hit fl) → (boost_match fl terms h).thought ≡ h.thought
  unfolding boost_match
  thought-boost_match terms h =
      elim (Bool-cases (fl.lt (fl.of_ℕ 0) (exact_identifier_match_score fl h terms))) [
        | inl e ↦ rw e refl
        | inr e ↦ rw e refl
      ]

  thoughts-map_boost :
      (terms : List (Text × fl.F)) (hits : List (Hit fl))
      → thoughts (map (boost_match fl terms) hits) ≡ thoughts hits
  thoughts-map_boost terms [] = refl
  thoughts-map_boost terms (h ∷ hits) =
      rw (thought-boost_match terms h, thoughts-map_boost terms hits) refl

  module _ (u : Unicode) where
    thoughts-boost :
        (query : Text) (hits : List (Hit fl))
        → thoughts (apply_exact_identifier_boost fl u query hits) ≡ thoughts hits
    unfolding apply_exact_identifier_boost
    thoughts-boost query hits =
        elim (Bool-cases (is_empty (exact_identifier_boost_terms fl u query))) [
          | inl e ↦ rw e refl
          | inr e ↦ rw e (thoughts-map_boost (exact_identifier_boost_terms fl u query) hits)
        ]

    thoughts-front_boosted :
        (query : Text) (n : ℕ) (hits : List (Hit fl))
        → thoughts (apply_exact_identifier_boost fl u query (take n hits) ++ drop n hits)
          ≡ thoughts hits
    thoughts-front_boosted query n hits =
        map-append (λ h. h.thought) (apply_exact_identifier_boost fl u query (take n hits))
          (drop n hits)
        ∙ ap (λ ts. ts ++ thoughts (drop n hits)) (thoughts-boost query (take n hits))
        ∙ sym (map-append (λ h. h.thought) (take n hits) (drop n hits))
        ∙ ap thoughts (take-append-drop n hits)

    order_by_scores-perm :
        (query : Text) (hits : List (Hit fl)) (n : ℕ) (boosting : Bool)
        (scores : List (RerankScore fl))
        → Perm
            (thoughts (order_by_scores fl u query hits n boosting scores))
            (thoughts (take n hits))
    unfolding order_by_scores
    order_by_scores-perm query hits n boosting scores =
        let scored = write_scores fl scores hits in
        let boosted : List (Hit fl) =
          if boosting
          then apply_exact_identifier_boost fl u query (take n scored) ++ drop n scored
          else scored in
        let same : thoughts boosted ≡ thoughts hits = elim (Bool-cases boosting) [
          | inl e ↦ rw e (thoughts-front_boosted query n scored ∙ thoughts-write_scores scores hits)
          | inr e ↦ rw e (thoughts-write_scores scores hits)
        ] in
        subst (λ ts. Perm (thoughts (sort (reranks_before fl) (take n boosted))) ts)
          (map-take (λ h. h.thought) n boosted
            ∙ ap (take n) same
            ∙ sym (map-take (λ h. h.thought) n hits))
          (Perm.map (λ h. h.thought) (sort-perm (reranks_before fl) (take n boosted)))

    reranked-Pool :
        (hits : List (Hit fl)) (n : ℕ) (order : List (RerankScore fl) → List (Hit fl))
        (r : Result RerankerError (List (RerankScore fl)))
        → ((scores : List (RerankScore fl))
            → Perm (thoughts (order scores)) (thoughts (take n hits)))
        → ((reranked fl u hits order r).1 ≡ false → (reranked fl u hits order r).0 ≡ hits)
          × ((reranked fl u hits order r).1 ≡ true
              → Perm (thoughts (reranked fl u hits order r).0) (thoughts (take n hits)))
    reranked-Pool hits n order (err e) h = (λ b. refl, λ b. cc)
    reranked-Pool hits n order (ok scores) h = (λ b. cc, λ b. h scores)

    -- Whatever the backend answers, failures and scores for other places included: either the stage
    -- says that it did nothing, and leaves the hits as they were, or its hits are those of the pool,
    -- the first hits up to the size of the pool, in another order, with none lost or made up.
    pub apply_rerank_to_thought_hits_lem :
        (reranker : Reranker fl) (query : Text) (hits : List (Hit fl)) (candidate_pool : ℕ)
        (boosting : Bool)
        → ((apply_rerank_to_thought_hits fl u reranker query hits candidate_pool boosting).1 ≡ false
            → (apply_rerank_to_thought_hits fl u reranker query hits candidate_pool boosting).0
              ≡ hits)
          × ((apply_rerank_to_thought_hits fl u reranker query hits candidate_pool boosting).1
                ≡ true
              → Perm
                  (thoughts
                    (apply_rerank_to_thought_hits fl u reranker query hits candidate_pool
                      boosting).0)
                  (thoughts (take (min candidate_pool (length hits)) hits)))
    unfolding apply_rerank_to_thought_hits
    apply_rerank_to_thought_hits_lem reranker query [] candidate_pool boosting =
        (λ b. refl, λ b. cc)
    apply_rerank_to_thought_hits_lem reranker query (h ∷ hits) candidate_pool boosting =
        let n = min candidate_pool (length (h ∷ hits)) in
        reranked-Pool (h ∷ hits) n (order_by_scores fl u query (h ∷ hits) n boosting)
          (rerank_candidates_batched fl reranker query (map (candidate_of fl) (take n (h ∷ hits))))
          (order_by_scores-perm query (h ∷ hits) n boosting)
