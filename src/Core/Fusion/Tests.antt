-- ===== src/Core/Fusion/Tests.antt =====
-- Fusion of small rankings, with scores in thousandths.
use mathlib.Core.List.{Perm, Nodup}
use mathlib.Core.List.Perm
use k_engram.Prelude.{ℕ, List, [], ◌∷◌, ◌≡◌, refl, some, none}
use k_engram.Text.{codes}
use k_engram.Float.{thousandths, thousandths-IsOrdered}
use k_engram.Sorting.{IsSorted}
use k_engram.Core.Relation.{ThoughtId}
use k_engram.Core.Fusion.{
  Hit, Thought, from_vector_leg, from_lexical_leg, contribution, rrf_fuse, fuse_all, scores_before,
}
use k_engram.Core.Fusion.Accumulate.{found}
use k_engram.Core.Fusion.Legs.{IsMerge, fuse_all-IsMerge}
use k_engram.Core.Fusion.Order.{ids, rrf_fuse_lem}
use k_engram.Core.Tags.{default_tags}

abbrev id_of : ℕ → ThoughtId
id_of n = record { uuid = n }

abbrev thought_of : ℕ → Thought
thought_of n = record { id = id_of n; content = codes "note"; tags = default_tags; created_at = 0 }

abbrev vec : ℕ → ℕ → Hit thousandths
vec n s = record {
  thought = thought_of n;
  vector_score = some s;
  lexical_score = none;
  trigram_score = none;
  rrf_score = none;
  rerank_score = none;
  chunk = none;
}

abbrev lex : ℕ → ℕ → Hit thousandths
lex n s = record {
  thought = thought_of n;
  vector_score = none;
  lexical_score = some s;
  trigram_score = some s;
  rrf_score = none;
  rerank_score = none;
  chunk = none;
}

-- These are the hits of the two legs.
legs_lem :
    (from_vector_leg thousandths (thought_of 1) 900 ≡ vec 1 900)
    × (from_lexical_leg thousandths (thought_of 2) 700 ≡ lex 2 700)
unfolding from_vector_leg from_lexical_leg
legs_lem = (refl, refl)

abbrev rankings : List (List (Hit thousandths))
rankings = (vec 1 900 ∷ vec 2 800 ∷ []) ∷ (lex 2 700 ∷ lex 3 600 ∷ []) ∷ []

fused_ids : ids thousandths (rrf_fuse thousandths (λ l. l) rankings 1000) ≡ 2 ∷ 1 ∷ 3 ∷ []
unfolding rrf_fuse
fused_ids = refl

fuse_all-IsMerge_example :
    (h : Hit thousandths) × (found thousandths (id_of 2) (fuse_all thousandths 1000 rankings [])
      ≡ some h)
    × IsMerge thousandths
        (contribution thousandths 1000 1)
        (vec 2 800)
        ((contribution thousandths 1000 0, lex 2 700) ∷ [])
        h
fuse_all-IsMerge_example =
    fuse_all-IsMerge thousandths (id_of 2) 1000 rankings (contribution thousandths 1000 1)
      (vec 2 800) ((contribution thousandths 1000 0, lex 2 700) ∷ []) refl

rrf_fuse_lem_example :
    Nodup (ids thousandths (rrf_fuse thousandths (λ l. l) rankings 1000))
    × Perm (rrf_fuse thousandths (λ l. l) rankings 1000) (fuse_all thousandths 1000 rankings [])
    × IsSorted (scores_before thousandths) (rrf_fuse thousandths (λ l. l) rankings 1000)
rrf_fuse_lem_example =
    rrf_fuse_lem thousandths thousandths-IsOrdered (λ l. l) (λ l. Perm.refl l) rankings 1000
