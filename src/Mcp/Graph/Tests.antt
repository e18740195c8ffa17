-- ===== src/Mcp/Graph/Tests.antt =====
-- A ranking of two thoughts is joined by one of them and a neighbour; scores in thousandths.
use mathlib.Core.List.{Nodup, Nodup-nil, Nodup-cons, Mem, mem-cons, not-mem-nil}
use mathlib.Core.Logic.Or
use mathlib.Core.Logic.{◌∨₁◌}
use mathlib.Core.HLevel.{⊥_prop}
use k_engram.Prelude.{ℕ, List, [], ◌∷◌, ◌≡◌, refl, none, some, ◌↔◌, Option, arith}
use k_engram.Text.{codes}
use k_engram.Float.{thousandths, thousandths-IsOrdered}
use k_engram.Sorting.{IsSorted, sort}
use k_engram.Core.Fusion.{Hit, contribution, scores_before}
use k_engram.Core.Fusion.Order.{ids}
use k_engram.Mcp.Graph.{
  merge_graph_expansion, merge_graph_hits, merge_graph_hit, raise_last, add_score,
}
use k_engram.Mcp.Graph.Merge.{merge_graph_expansion_lem}
use k_engram.Core.Tags.{default_tags}

abbrev hit : ℕ → Option ℕ → Hit thousandths
hit n score = record {
  thought = record {
    id = record { uuid = n };
    content = codes "note";
    tags = default_tags;
    created_at = 0;
  };
  vector_score = none;
  lexical_score = none;
  trigram_score = none;
  rrf_score = score;
  rerank_score = none;
  chunk = none;
}

abbrev fused : List (Hit thousandths)
fused = hit 1 (some 300) ∷ hit 2 (some 200) ∷ []

abbrev neighbours : List (Hit thousandths)
neighbours = hit 2 none ∷ hit 3 none ∷ []

-- With k = 1 the neighbours are worth 500 and 333.
merged_neighbours :
    merge_graph_expansion thousandths fused neighbours 1000
    ≡ hit 2 (some 700) ∷ hit 3 (some 333) ∷ hit 1 (some 300) ∷ []
unfolding merge_graph_expansion merge_graph_hits merge_graph_hit raise_last add_score contribution
    scores_before sort
merged_neighbours = refl

fused-Nodup : Nodup (ids thousandths fused)
fused-Nodup = Nodup-cons.1 (
  λ m. Or.elim ⊥_prop (mem-cons.0 m) (λ q. ground (arith, q)) not-mem-nil,
  Nodup-cons.1 (not-mem-nil, Nodup-nil),
)

merge_graph_expansion_lem_example :
    Nodup (ids thousandths (merge_graph_expansion thousandths fused neighbours 1000))
    × ((x : ℕ)
        → Mem x (ids thousandths (merge_graph_expansion thousandths fused neighbours 1000))
          ↔ (Mem x (ids thousandths fused) ∨₁ Mem x (ids thousandths neighbours)))
    × IsSorted (scores_before thousandths) (merge_graph_expansion thousandths fused neighbours 1000)
merge_graph_expansion_lem_example =
    merge_graph_expansion_lem thousandths thousandths-IsOrdered fused (hit 2 none) (hit 3 none ∷ [])
      1000 fused-Nodup
