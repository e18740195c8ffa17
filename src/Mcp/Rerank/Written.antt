-- ===== src/Mcp/Rerank/Written.antt =====
-- Where the scores of a backend go in the rerank stage of crates/kengram-mcp/src/search.rs, if it
-- answers as the trait `Reranker` documents.
use k_engram.Prelude.{
  ℕ, zero, suc, ◌≤◌, Bool, true, List, [], ◌∷◌, ◌++◌, map, Option, none, some, ◌≡◌, refl, ◌∙◌, ap,
  sym, subst, inl, inr, arith, ◌==◌, ltb, if◌then◌else◌, Bool-cases, ok, is_empty, length,
  length-take, take, drop, min, get_elem?, map_some, some_injective, length-map,
}
use k_engram.Text.{Text}
use k_engram.Unicode.{Unicode}
use k_engram.Float.{Float}
use k_engram.Sorting.{sort}
use k_engram.Core.Fusion.{Hit}
use k_engram.Mcp.Rerank.{
  RerankScore, Reranker, candidate_of, set_score, write_scores, boost_match,
  apply_exact_identifier_boost, exact_identifier_boost_terms, order_by_scores, reranked,
  reranks_before, apply_rerank_to_thought_hits,
}
use k_engram.Mcp.Rerank.Batches.{
  scores_at, expected, OnePerCandidate, get_elem?-take, rerank_candidates_batched_lem,
}

module _ {A : Type 0} where
  same_elements : (xs ys : List A) → ((i : ℕ) → get_elem? xs i ≡ get_elem? ys i) → xs ≡ ys
  same_elements [] [] h = refl
  same_elements [] (y ∷ ys) h = absurd (cc (h 0))
  same_elements (x ∷ xs) [] h = absurd (cc (h 0))
  same_elements (x ∷ xs) (y ∷ ys) h =
      let first : x ≡ y = some_injective (h 0) in
      let others : xs ≡ ys = same_elements xs ys (λ i. h (suc i)) in cc

  get_elem?-map :
      {B : Type 0} (f : A → B) (xs : List A) (i : ℕ)
      → get_elem? (map f xs) i ≡ map_some f (get_elem? xs i)
  get_elem?-map f [] i = refl
  get_elem?-map f (x ∷ xs) zero = refl
  get_elem?-map f (x ∷ xs) (suc i) = get_elem?-map f xs i

  take-min : (n : ℕ) (xs : List A) → take (min n (length xs)) xs ≡ take n xs
  take-min zero xs = let none_taken : min 0 (length xs) ≡ 0 = omega arith in rw none_taken refl
  take-min (suc n) [] = let none_taken : min (suc n) 0 ≡ 0 = omega arith in rw none_taken refl
  take-min (suc n) (x ∷ xs) =
      let one_more : min (suc n) (suc (length xs)) ≡ suc (min n (length xs)) = omega arith in
      rw one_more (ap (λ ys. x ∷ ys) (take-min n xs))

  map_some_id : (f : A → A) (o : Option A) → ((a : A) → f a ≡ a) → o ≡ map_some f o
  map_some_id f none h = refl
  map_some_id f (some a) h = ap some (sym (h a))

  take-append_front : (xs ys : List A) → take (length xs) (xs ++ ys) ≡ xs
  take-append_front [] ys = refl
  take-append_front (x ∷ xs) ys = ap (λ zs. x ∷ zs) (take-append_front xs ys)

module _ (fl : Float) where
  open fl use {F}

  abbrev write_all : List (RerankScore fl) → Hit fl → Hit fl
  write_all [] h = h
  write_all (s ∷ scores) h = write_all scores (record h { rerank_score = some s.score })

  abbrev written : Bool → F → Hit fl → Hit fl
  written here score h = if here then record h { rerank_score = some score } else h

  get_elem?-set_score :
      (j : ℕ) (score : F) (hits : List (Hit fl)) (i : ℕ)
      → get_elem? (set_score fl j score hits) i
        ≡ map_some (written (j == i) score) (get_elem? hits i)
  unfolding set_score
  get_elem?-set_score j score [] i = refl
  get_elem?-set_score zero score (h ∷ hits) zero = refl
  get_elem?-set_score zero score (h ∷ hits) (suc i) =
      map_some_id (written (0 == suc i) score) (get_elem? hits i) (λ a. ground arith)
  get_elem?-set_score (suc j) score (h ∷ hits) zero = ground arith
  get_elem?-set_score (suc j) score (h ∷ hits) (suc i) =
      let same : (j == i) ≡ (suc j == suc i) = ground arith in
      get_elem?-set_score j score hits i
      ∙ ap (λ b. map_some (written b score) (get_elem? hits i)) same

  write_all-written :
      (s : RerankScore fl) (i : ℕ) (scores : List (RerankScore fl)) (o : Option (Hit fl))
      → map_some (write_all (scores_at fl i scores)) (map_some (written (s.index == i) s.score) o)
        ≡ map_some (write_all (scores_at fl i (s ∷ scores))) o
  write_all-written s i scores none = refl
  write_all-written s i scores (some h) = elim (Bool-cases (s.index == i)) [
    | inl e ↦ rw e refl
    | inr e ↦ rw e refl
  ]

  get_elem?-write_scores :
      (scores : List (RerankScore fl)) (hits : List (Hit fl)) (i : ℕ)
      → get_elem? (write_scores fl scores hits) i
        ≡ map_some (write_all (scores_at fl i scores)) (get_elem? hits i)
  unfolding write_scores
  get_elem?-write_scores [] hits i = map_some_id (λ h. h) (get_elem? hits i) (λ a. refl)
  get_elem?-write_scores (s ∷ scores) hits i =
      get_elem?-write_scores scores (set_score fl s.index s.score hits) i
      ∙ ap (map_some (write_all (scores_at fl i scores)))
          (get_elem?-set_score s.index s.score hits i)
      ∙ write_all-written s i scores (get_elem? hits i)

  -- The hit with the score of its own content.
  abbrev pub rescored : (Text → F) → Hit fl → Hit fl
  rescored score h = record h { rerank_score = some (score (candidate_of fl h)) }

  write_all-expected :
      (score : Text → F) (i : ℕ) (o : Option (Hit fl))
      → map_some (write_all (expected fl score i (map_some (candidate_of fl) o))) o
        ≡ map_some (rescored score) o
  write_all-expected score i none = refl
  write_all-expected score i (some h) = refl

  take-write_scores :
      (score : Text → F) (n : ℕ) (hits : List (Hit fl)) (scores : List (RerankScore fl))
      → OnePerCandidate fl score (map (candidate_of fl) (take n hits)) scores
      → take n (write_scores fl scores hits) ≡ map (rescored score) (take n hits)
  take-write_scores score n hits scores one =
      same_elements (take n (write_scores fl scores hits)) (map (rescored score) (take n hits))
        (λ i.
          get_elem?-take n i (write_scores fl scores hits)
          ∙ elim (Bool-cases (ltb i n)) [
            | inl e ↦
                let here : get_elem? (take n hits) i ≡ get_elem? hits i =
                  get_elem?-take n i hits ∙ ap (λ b. if b then get_elem? hits i else none) e in
                let given : scores_at fl i scores
                    ≡ expected fl score i (map_some (candidate_of fl) (get_elem? hits i)) =
                  one i
                  ∙ ap (expected fl score i) (
                      get_elem?-map (candidate_of fl) (take n hits) i
                      ∙ ap (map_some (candidate_of fl)) here) in
                rw (e, here)
                  (get_elem?-write_scores scores hits i
                    ∙ ap (λ ss. map_some (write_all ss) (get_elem? hits i)) given
                    ∙ write_all-expected score i (get_elem? hits i))
            | inr e ↦
                let here : get_elem? (take n hits) i ≡ none =
                  get_elem?-take n i hits ∙ ap (λ b. if b then get_elem? hits i else none) e in
                rw (e, here) refl
          ]
          ∙ sym (get_elem?-map (rescored score) (take n hits) i))

  module _ (u : Unicode) where
    length-boost :
        (query : Text) (hits : List (Hit fl))
        → length (apply_exact_identifier_boost fl u query hits) ≡ length hits
    unfolding apply_exact_identifier_boost
    length-boost query hits =
        elim (Bool-cases (is_empty (exact_identifier_boost_terms fl u query))) [
          | inl e ↦ rw e refl
          | inr e ↦
              rw e (length-map (boost_match fl (exact_identifier_boost_terms fl u query)) hits)
        ]

    -- The boost, if it is switched on.
    abbrev pub boosted : Bool → Text → List (Hit fl) → List (Hit fl)
    boosted boosting query hits =
        if boosting then apply_exact_identifier_boost fl u query hits else hits

    order_by_scores-rescored :
        (score : Text → F) (query : Text) (hits : List (Hit fl)) (n : ℕ) (boosting : Bool)
        (scores : List (RerankScore fl))
        → n ≤ length hits
        → OnePerCandidate fl score (map (candidate_of fl) (take n hits)) scores
        → order_by_scores fl u query hits n boosting scores
          ≡ sort (reranks_before fl) (boosted boosting query (map (rescored score) (take n hits)))
    unfolding order_by_scores
    order_by_scores-rescored score query hits n boosting scores h one =
        let front = take-write_scores score n hits scores one in
        elim (Bool-cases boosting) [
          | inl e ↦
              rw (e, front)
                (let all_of = map (rescored score) (take n hits) in
                  let counted : length (apply_exact_identifier_boost fl u query all_of) ≡ n =
                    length-boost query all_of
                    ∙ length-map (rescored score) (take n hits)
                    ∙ omega (arith, length-take n hits) in
                  ap (sort (reranks_before fl)) (
                    subst
                      (λ m.
                        take m (
                          apply_exact_identifier_boost fl u query all_of
                          ++ drop n (write_scores fl scores hits))
                        ≡ apply_exact_identifier_boost fl u query all_of)
                      counted
                      (take-append_front (apply_exact_identifier_boost fl u query all_of)
                        (drop n (write_scores fl scores hits)))))
          | inr e ↦ rw (e, front) refl
        ]

    -- If the backend answers each slice of at most 32 candidates with one score for each of them, in
    -- any order, then the stage takes the hits of the pool, gives each the score of its own content,
    -- adds the boost if it is switched on, and sorts them.
    pub apply_rerank_to_thought_hits_rescores :
        (score : Text → F) (reranker : Reranker fl) (query : Text)
        → ((batch : List Text)
            → length batch ≤ 32
            → (scores : List (RerankScore fl)) × (reranker query batch ≡ ok scores)
              × OnePerCandidate fl score batch scores)
        → (h : Hit fl) (hits : List (Hit fl)) (candidate_pool : ℕ) (boosting : Bool)
        → apply_rerank_to_thought_hits fl u reranker query (h ∷ hits) candidate_pool boosting ≡ (
          sort
              (reranks_before fl)
              (boosted boosting query (map (rescored score) (take candidate_pool (h ∷ hits)))),
          true,
        )
    unfolding apply_rerank_to_thought_hits
    apply_rerank_to_thought_hits_rescores score reranker query answers h hits candidate_pool
          boosting =
        let n = min candidate_pool (length (h ∷ hits)) in
        let (scores, e, one) =
          rerank_candidates_batched_lem fl score reranker query answers
            (map (candidate_of fl) (take n (h ∷ hits))) in
        ap (reranked fl u (h ∷ hits) (order_by_scores fl u query (h ∷ hits) n boosting)) e
        ∙ ap (λ sorted. (sorted, true))
            (order_by_scores-rescored score query (h ∷ hits) n boosting scores (omega arith) one
              ∙ ap
                  (λ front.
                    sort (reranks_before fl) (boosted boosting query (map (rescored score) front)))
                  (take-min candidate_pool (h ∷ hits)))
