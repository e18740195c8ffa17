-- ===== src/Mcp/Graph/Only.antt =====
-- What holds of the thoughts of the fused ranking and of the neighbours holds of the merged ranking,
-- in crates/kengram-mcp/src/search.rs.
use k_engram.Prelude.{
  ℕ, ◌+◌, Bool, true, List, [], ◌∷◌, Option, none, some, ◌≡◌, inl, inr, Bool-cases, All-append,
}
use k_engram.Float.{Float}
use k_engram.Sorting.{All-sort}
use k_engram.Core.Relation.{ThoughtId}
use k_engram.Core.Fusion.{Hit, Thought, same_id, contribution, scores_before}
use k_engram.Core.Fusion.Only.{Only}
use k_engram.Mcp.Graph.{
  add_score, at_last, raise_last, or_push, merge_graph_hit, merge_graph_hits, merge_graph_expansion,
}

module _ (fl : Float) (p : Thought → Bool) where
  abbrev OnlyIf : Option (List (Hit fl)) → Type 0
  OnlyIf none = Unit
  OnlyIf (some hits) = Only fl p hits

  OnlyIf-at_last :
      (c : fl.F) (id : ThoughtId) (h : Hit fl) (hs : List (Hit fl)) (later : Option (List (Hit fl)))
      → Only fl p (h ∷ hs)
      → OnlyIf later
      → OnlyIf (at_last fl c id h hs later)
  unfolding add_score
  OnlyIf-at_last c id h hs (some later) all rest = (all.0, rest)
  OnlyIf-at_last c id h hs none all rest = elim (Bool-cases (same_id h.thought.id id)) [
    | inl e ↦ rw e all
    | inr e ↦ rw e tt
  ]

  OnlyIf-raise_last :
      (c : fl.F) (id : ThoughtId) (hits : List (Hit fl))
      → Only fl p hits
      → OnlyIf (raise_last fl c id hits)
  unfolding raise_last
  OnlyIf-raise_last c id [] h = tt
  OnlyIf-raise_last c id (g ∷ hits) h =
      OnlyIf-at_last c id g hits (raise_last fl c id hits) h (OnlyIf-raise_last c id hits h.1)

  Only-or_push :
      (c : fl.F) (hit : Hit fl) (fused : List (Hit fl)) (raised : Option (List (Hit fl)))
      → p hit.thought ≡ true
      → Only fl p fused
      → OnlyIf raised
      → Only fl p (or_push fl c hit fused raised)
  Only-or_push c hit fused (some raised) e h r = r
  Only-or_push c hit fused none e h r =
      All-append (λ g. p g.thought ≡ true) fused (record hit { rrf_score = some c } ∷ []) h (e, tt)

  Only-merge_graph_hits :
      (k : fl.F) (i : ℕ) (ranking fused : List (Hit fl))
      → Only fl p ranking
      → Only fl p fused
      → Only fl p (merge_graph_hits fl k i ranking fused)
  unfolding merge_graph_hits merge_graph_hit
  Only-merge_graph_hits k i [] fused r h = h
  Only-merge_graph_hits k i (hit ∷ ranking) fused r h =
      let c = contribution fl k i in
      Only-merge_graph_hits k (i + 1) ranking (merge_graph_hit fl c hit fused) r.1 (
        Only-or_push c hit fused (raise_last fl c hit.thought.id fused) r.0 h
          (OnlyIf-raise_last c hit.thought.id fused h))

  pub Only-merge_graph_expansion :
      (fused ranking : List (Hit fl)) (k : fl.F)
      → Only fl p fused
      → Only fl p ranking
      → Only fl p (merge_graph_expansion fl fused ranking k)
  unfolding merge_graph_expansion
  Only-merge_graph_expansion fused [] k h r = h
  Only-merge_graph_expansion fused (hit ∷ ranking) k h r =
      All-sort (scores_before fl) (λ g. p g.thought ≡ true)
        (merge_graph_hits fl k 0 (hit ∷ ranking) fused)
        (Only-merge_graph_hits k 0 (hit ∷ ranking) fused r h)
