-- ===== src/Mcp/Rerank/Batches.antt =====
-- The slices of at most 32 candidates in crates/kengram-mcp/src/search.rs against one call on all of
-- them.
use mathlib.Core.List.{append-nil}
use k_engram.Prelude.{
  ℕ, zero, suc, ◌+◌, ◌-◌, ◌*◌, ◌≤◌, ◌<◌, List, [], ◌∷◌, ◌++◌, map, Option, none, some, ◌≡◌, refl,
  ◌∙◌, ap, sym, subst, inl, inr, arith, ◌==◌, ltb, if◌then◌else◌, Bool-cases, Result, ok, err,
  and_then, length, take, drop, retain, get_elem?, length-take,
}
use k_engram.Text.{Text}
use k_engram.Float.{Float}
use k_engram.Mcp.Rerank.{
  RerankerError, RerankScore, Reranker, shift, chunks_fuel, with_offsets, rerank_one_batch,
  rerank_slice, rerank_loop, rerank_slices, rerank_candidates_batched,
}

module _ {A : Type 0} where
  pub get_elem?-take :
      (n j : ℕ) (xs : List A) → get_elem? (take n xs) j ≡ (if ltb j n then get_elem? xs j else none)
  get_elem?-take zero j xs = ground arith
  get_elem?-take (suc n) j [] = ground arith
  get_elem?-take (suc n) zero (x ∷ xs) = ground arith
  get_elem?-take (suc n) (suc j) (x ∷ xs) = ground (arith, get_elem?-take n j xs)

  get_elem?-drop : (n j : ℕ) (xs : List A) → get_elem? (drop n xs) j ≡ get_elem? xs (j + n)
  get_elem?-drop zero j xs = ap (get_elem? xs) (omega arith)
  get_elem?-drop (suc n) j [] = refl
  get_elem?-drop (suc n) j (x ∷ xs) =
      let behind : suc (j + n) ≡ j + suc n = omega arith in
      get_elem?-drop n j xs ∙ ap (get_elem? (x ∷ xs)) behind

  length-drop : (n : ℕ) (xs : List A) → length (drop n xs) ≡ length xs - n
  length-drop zero xs = omega arith
  length-drop (suc n) [] = omega arith
  length-drop (suc n) (x ∷ xs) = omega (arith, length-drop n xs)

module _ (fl : Float) where
  open fl use {F}

  -- The scores for one place, in the order of the answer.
  abbrev pub scores_at : ℕ → List (RerankScore fl) → List (RerankScore fl)
  scores_at i = retain (λ s. s.index == i)

  abbrev pub expected : (Text → F) → ℕ → Option Text → List (RerankScore fl)
  expected score i none = []
  expected score i (some c) = record { index = i; score = score c } ∷ []

  -- One score for each candidate and none for other places, in any order.
  abbrev pub OnePerCandidate : (Text → F) → List Text → List (RerankScore fl) → Type 0
  OnePerCandidate score batch scores =
      (i : ℕ) → scores_at i scores ≡ expected score i (get_elem? batch i)

  scores_at-append :
      (i : ℕ) (xs ys : List (RerankScore fl))
      → scores_at i (xs ++ ys) ≡ scores_at i xs ++ scores_at i ys
  scores_at-append i [] ys = refl
  scores_at-append i (x ∷ xs) ys = ground (arith, scores_at-append i xs ys)

  scores_at-shift_below :
      (i offset : ℕ) (xs : List (RerankScore fl))
      → i < offset
      → scores_at i (map (shift fl offset) xs) ≡ []
  scores_at-shift_below i offset [] h = refl
  scores_at-shift_below i offset (x ∷ xs) h = ground (arith, scores_at-shift_below i offset xs h)

  scores_at-shift :
      (i offset : ℕ) (xs : List (RerankScore fl))
      → scores_at (i + offset) (map (shift fl offset) xs) ≡ map (shift fl offset) (scores_at i xs)
  scores_at-shift i offset [] = refl
  scores_at-shift i offset (x ∷ xs) = ground (arith, scores_at-shift i offset xs)

  last_appended :
      (r : Result RerankerError (List (RerankScore fl))) → r ≡ and_then r (λ a. ok (a ++ []))
  last_appended (err e) = refl
  last_appended (ok a) = ap ok (sym (append-nil a))

  rerank_slices-loop :
      (reranker : Reranker fl) (query : Text) (slices : List (ℕ × List Text))
      → rerank_slices fl reranker query slices ≡ rerank_loop fl reranker query slices
  unfolding rerank_slices rerank_loop
  rerank_slices-loop reranker query [] = refl
  rerank_slices-loop reranker query (a ∷ []) = last_appended (rerank_slice fl reranker query a)
  rerank_slices-loop reranker query (a ∷ b ∷ []) =
      ap (λ r. and_then (rerank_slice fl reranker query a) (λ xs. and_then r (λ ys. ok (xs ++ ys))))
        (last_appended (rerank_slice fl reranker query b))
  rerank_slices-loop reranker query (a ∷ b ∷ c ∷ slices) = refl

  -- What the slices from an offset on are to answer.
  abbrev Behind : (Text → F) → ℕ → List Text → List (RerankScore fl) → Type 0
  Behind score offset xs scores =
      ((i : ℕ) → i < offset → scores_at i scores ≡ [])
      × ((j : ℕ) → scores_at (j + offset) scores ≡ expected score (j + offset) (get_elem? xs j))

  map-expected :
      (score : Text → F) (offset j : ℕ) (o : Option Text)
      → map (shift fl offset) (expected score j o) ≡ expected score (j + offset) o
  map-expected score offset j none = refl
  map-expected score offset j (some c) = refl

  Behind-cut :
      (score : Text → F) (n offset : ℕ) (xs : List Text) (front rest : List (RerankScore fl))
      → OnePerCandidate score (take n xs) front
      → Behind score (offset + n) (drop n xs) rest
      → Behind score offset xs (map (shift fl offset) front ++ rest)
  Behind-cut score n offset xs front rest h k = (
    λ i below.
        scores_at-append i (map (shift fl offset) front) rest
        ∙ rw (scores_at-shift_below i offset front below, k.0 i (omega arith)) refl,
    λ j.
        scores_at-append (j + offset) (map (shift fl offset) front) rest
        ∙ rw
            (
              scores_at-shift j offset front,
              h j,
              map-expected score offset j (get_elem? (take n xs) j),
              get_elem?-take n j xs,
            )
            (elim (Bool-cases (ltb j n)) [
              | inl e ↦
                  rw (e, k.0 (j + offset) (ground arith))
                    (append-nil (expected score (j + offset) (get_elem? xs j)))
              | inr e ↦ rw e (
                  subst (λ i. scores_at i rest ≡ expected score i (get_elem? xs j)) (ground arith)
                    (k.1 (j - n)
                      ∙ ap (expected score (j - n + (offset + n)))
                          (get_elem?-drop n (j - n) xs ∙ ap (get_elem? xs) (ground arith))))
            ]),
  )

  chained :
      (f : RerankScore fl → RerankScore fl) {q r : Result RerankerError (List (RerankScore fl))}
      {a b : List (RerankScore fl)}
      → q ≡ ok a
      → r ≡ ok b
      → and_then (and_then q (λ s. ok (map f s))) (λ x. and_then r (λ y. ok (x ++ y)))
        ≡ ok (map f a ++ b)
  chained f e g = rw (e, g) refl

  module _ (score : Text → F) (reranker : Reranker fl) (query : Text)
      (answers : (batch : List Text)
        → length batch ≤ 32
        → (scores : List (RerankScore fl)) × (reranker query batch ≡ ok scores)
          × OnePerCandidate score batch scores) where
    rerank_loop-Behind :
        (fuel k : ℕ) (xs : List Text)
        → length xs ≤ fuel
        → (scores : List (RerankScore fl)) × (rerank_loop fl reranker query
              (with_offsets 32 k (chunks_fuel fuel 32 xs))
            ≡ ok scores)
          × Behind score (k * 32) xs scores
    unfolding rerank_loop rerank_one_batch with_offsets chunks_fuel
    rerank_loop-Behind zero k [] h = ([], refl, ((λ i below. refl), (λ j. refl)))
    rerank_loop-Behind zero k (x ∷ xs) h = absurd (omega arith)
    rerank_loop-Behind (suc fuel) k [] h = ([], refl, ((λ i below. refl), (λ j. refl)))
    rerank_loop-Behind (suc fuel) k (x ∷ xs) h =
        let (front, e, one) = answers (take 32 (x ∷ xs)) (omega (arith, length-take 32 (x ∷ xs))) in
        let (rest, r, behind) =
          rerank_loop-Behind fuel (k + 1) (drop 32 (x ∷ xs))
            (omega (arith, length-drop 32 (x ∷ xs))) in
        (
          map (shift fl (k * 32)) front ++ rest,
          chained (shift fl (k * 32)) e r,
          Behind-cut score 32 (k * 32) (x ∷ xs) front rest one
              (subst (λ o. Behind score o (drop 32 (x ∷ xs)) rest) (omega arith) behind),
        )

    -- If the backend answers each slice of at most 32 candidates with one score for each of them, in
    -- any order, then the answers to the slices together are an answer to all candidates, with one
    -- score for each of them under its own place.
    pub rerank_candidates_batched_lem :
        (candidates : List Text)
        → (scores : List (RerankScore fl)) × (rerank_candidates_batched fl reranker query candidates
            ≡ ok scores)
          × OnePerCandidate score candidates scores
    unfolding rerank_candidates_batched
    rerank_candidates_batched_lem candidates =
        let (scores, e, behind) =
          rerank_loop-Behind (length candidates) 0 candidates (omega arith) in
        (
          scores,
          rerank_slices-loop reranker query
                (with_offsets 32 0 (chunks_fuel (length candidates) 32 candidates))
              ∙ e,
          λ i.
              subst (λ j. scores_at j scores ≡ expected score j (get_elem? candidates i))
                (omega arith) (behind.1 i),
        )
