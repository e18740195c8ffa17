-- ===== src/Core/Fusion/Accumulate.antt =====
-- What the accumulator of `rrf_fuse` holds for a thought: the merge of its occurrences.
use k_engram.Prelude.{
  ℕ, ◌+◌, List, [], ◌∷◌, ◌++◌, ◌≡◌, refl, sym, ◌∙◌, ap, Option, none, some, arith, if◌then◌else◌,
  Bool-cases, inl, inr,
}
use k_engram.Float.{Float}
use k_engram.Core.Relation.{ThoughtId}
use k_engram.Core.Fusion.{
  Hit, same_id, contribution, merge_into, first_seen, accumulate, fuse_ranking, fuse_all,
}

module _ (fl : Float) where
  open fl use {F}

  -- The hit of a thought in a list of hits.
  abbrev pub found : ThoughtId → List (Hit fl) → Option (Hit fl)
  found id [] = none
  found id (h ∷ acc) = if same_id h.thought.id id then some h else found id acc

  -- The hits of a thought in the rankings, in order, each with its contribution.
  abbrev pub occurrences_from : F → ℕ → ThoughtId → List (Hit fl) → List (F × Hit fl)
  occurrences_from k i id [] = []
  occurrences_from k i id (hit ∷ ranking) =
      let rest = occurrences_from k (i + 1) id ranking in
      if same_id hit.thought.id id then (contribution fl k i, hit) ∷ rest else rest

  abbrev pub occurrences : F → ThoughtId → List (List (Hit fl)) → List (F × Hit fl)
  occurrences k id [] = []
  occurrences k id (ranking ∷ rankings) =
      occurrences_from k 0 id ranking ++ occurrences k id rankings

  abbrev absorb : Option (Hit fl) → F × Hit fl → Option (Hit fl)
  absorb none (c, hit) = some (first_seen fl c hit)
  absorb (some h) (c, hit) = some (merge_into fl c h hit)

  abbrev pub absorb_all : Option (Hit fl) → List (F × Hit fl) → Option (Hit fl)
  absorb_all o [] = o
  absorb_all o (x ∷ xs) = absorb_all (absorb o x) xs

  absorb_all-append :
      (o : Option (Hit fl)) (xs ys : List (F × Hit fl))
      → absorb_all o (xs ++ ys) ≡ absorb_all (absorb_all o xs) ys
  absorb_all-append o [] ys = refl
  absorb_all-append o (x ∷ xs) ys = absorb_all-append (absorb o x) xs ys

  found-accumulate :
      (id : ThoughtId) (c : F) (hit : Hit fl) (acc : List (Hit fl))
      → found id (accumulate fl c hit acc)
        ≡ (if same_id hit.thought.id id then absorb (found id acc) (c, hit) else found id acc)
  unfolding accumulate
  found-accumulate id c hit [] = ground arith
  found-accumulate id c hit (h ∷ acc) = ground (arith, found-accumulate id c hit acc)

  found-fuse_ranking :
      (id : ThoughtId) (k : F) (i : ℕ) (ranking acc : List (Hit fl))
      → found id (fuse_ranking fl k i ranking acc)
        ≡ absorb_all (found id acc) (occurrences_from k i id ranking)
  unfolding fuse_ranking
  found-fuse_ranking id k i [] acc = refl
  found-fuse_ranking id k i (hit ∷ ranking) acc =
      let c = contribution fl k i in
      let step =
        found-fuse_ranking id k (i + 1) ranking (accumulate fl c hit acc)
        ∙ ap (λ o. absorb_all o (occurrences_from k (i + 1) id ranking))
            (found-accumulate id c hit acc) in
      elim (Bool-cases (same_id hit.thought.id id)) [ inl e ↦ step ∙ rw e | inr e ↦ step ∙ rw e ]

  found-fuse_all_from :
      (id : ThoughtId) (k : F) (rankings : List (List (Hit fl))) (acc : List (Hit fl))
      → found id (fuse_all fl k rankings acc)
        ≡ absorb_all (found id acc) (occurrences k id rankings)
  unfolding fuse_all
  found-fuse_all_from id k [] acc = refl
  found-fuse_all_from id k (ranking ∷ rankings) acc =
      found-fuse_all_from id k rankings (fuse_ranking fl k 0 ranking acc)
      ∙ ap (λ o. absorb_all o (occurrences k id rankings)) (found-fuse_ranking id k 0 ranking acc)
      ∙ sym (
          absorb_all-append (found id acc) (occurrences_from k 0 id ranking)
            (occurrences k id rankings))

  -- The accumulator holds for each thought the merge of its hits, in the order of the rankings;
  -- a thought of no ranking is not in it.
  pub found-fuse_all :
      (id : ThoughtId) (k : F) (rankings : List (List (Hit fl)))
      → found id (fuse_all fl k rankings []) ≡ absorb_all none (occurrences k id rankings)
  found-fuse_all id k rankings = found-fuse_all_from id k rankings []
