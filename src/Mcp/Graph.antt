-- ===== src/Mcp/Graph.antt =====
-- `merge_graph_expansion` of crates/kengram-mcp/src/search.rs: the neighbours of the first hits join
-- the fused ranking.
pub mod Merge
pub mod Only
pub mod Tests
use k_engram.Prelude.{
  unwrap_or, ℕ, ◌+◌, Bool, List, [], ◌∷◌, ◌++◌, Option, none, some, if◌then◌else◌,
}
use k_engram.Float.{Float}
use k_engram.Sorting.{sort}
use k_engram.Core.Relation.{ThoughtId}
use k_engram.Core.Fusion.{Hit, same_id, contribution, scores_before}

module _ (fl : Float) where
  open fl use {F, of_ℕ, add}

  -- `fused[existing_idx].rrf_score = Some(current + contribution)`.
  unfoldable pub add_score : F → Hit fl → Hit fl
  add_score c h = record h { rrf_score = some (add (unwrap_or h.rrf_score (of_ℕ 0)) c) }

  abbrev pub at_last :
      F → ThoughtId → Hit fl → List (Hit fl) → Option (List (Hit fl)) → Option (List (Hit fl))
  at_last c id h hs (some later) = some (h ∷ later)
  at_last c id h hs none = if same_id h.thought.id id then some (add_score c h ∷ hs) else none

  -- `positions` maps an id to its last index in `fused`: the score of that hit is raised, or the
  -- answer is none.
  unfoldable pub raise_last : F → ThoughtId → List (Hit fl) → Option (List (Hit fl))
  raise_last c id [] = none
  raise_last c id (h ∷ hs) = at_last c id h hs (raise_last c id hs)

  abbrev pub or_push : F → Hit fl → List (Hit fl) → Option (List (Hit fl)) → List (Hit fl)
  or_push c hit fused (some raised) = raised
  or_push c hit fused none = fused ++ (record hit { rrf_score = some c } ∷ [])

  -- The body of the loop.
  unfoldable pub merge_graph_hit : F → Hit fl → List (Hit fl) → List (Hit fl)
  merge_graph_hit c hit fused = or_push c hit fused (raise_last c hit.thought.id fused)

  -- The loop, from index `i` on.
  unfoldable pub merge_graph_hits : F → ℕ → List (Hit fl) → List (Hit fl) → List (Hit fl)
  merge_graph_hits k i [] fused = fused
  merge_graph_hits k i (hit ∷ ranking) fused =
      merge_graph_hits k (i + 1) ranking (merge_graph_hit (contribution fl k i) hit fused)

  unfoldable pub merge_graph_expansion : List (Hit fl) → List (Hit fl) → F → List (Hit fl)
  merge_graph_expansion fused [] k = fused
  merge_graph_expansion fused (hit ∷ ranking) k =
      sort (scores_before fl) (merge_graph_hits k 0 (hit ∷ ranking) fused)
