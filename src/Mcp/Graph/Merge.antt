-- ===== src/Mcp/Graph/Merge.antt =====
-- Which thoughts the merged ranking of crates/kengram-mcp/src/search.rs holds, and in which order.
use mathlib.Core.List.{Perm, Nodup, Nodup-cons, Mem, Mem-prop, mem-cons, not-mem-nil}
use mathlib.Core.List.Perm
use mathlib.Core.Logic.Or
use mathlib.Core.Logic.{◌∨₁◌, ∨₁_prop}
use mathlib.Core.HLevel.{⊥_prop}
use k_engram.Prelude.{
  ℕ, ◌+◌, List, [], ◌∷◌, ◌++◌, ◌≡◌, refl, sym, ap, subst, arith, none, some, Option-cases,
  some_injective, Bool-cases, ◌⊎◌, inl, inr, ◌↔◌,
}
use k_engram.Float.{Float, IsOrdered}
use k_engram.Sorting.{IsSorted, sort-perm}
use k_engram.Core.Relation.{ThoughtId}
use k_engram.Core.Fusion.{Hit, same_id, contribution, scores_before}
use k_engram.Core.Fusion.Order.{ids, sort_hits-IsSorted}
use k_engram.Mcp.Graph.{
  add_score, raise_last, merge_graph_hit, merge_graph_hits, merge_graph_expansion,
}

module _ (fl : Float) where
  open fl use {F}

  raise_last-none :
      (c : F) (id : ThoughtId) (hs : List (Hit fl))
      → raise_last fl c id hs ≡ none
      → ¬ Mem id.uuid (ids fl hs)
  unfolding raise_last
  raise_last-none c id [] e m = not-mem-nil m
  raise_last-none c id (h ∷ hs) e m = elim (Option-cases (raise_last fl c id hs)) [
    | inr (later, r) ↦ absurd (cc (rw r at e))
    | inl n ↦ elim (Bool-cases (same_id h.thought.id id)) [
      | inl s ↦ absurd (cc (rw (n, s) at e))
      | inr s ↦
          Or.elim ⊥_prop (mem-cons.0 m) (λ q. ground (arith, s, q)) (raise_last-none c id hs n)
    ]
  ]

  raise_last-some :
      (c : F) (id : ThoughtId) (hs raised : List (Hit fl))
      → raise_last fl c id hs ≡ some raised
      → (ids fl raised ≡ ids fl hs) × Mem id.uuid (ids fl hs)
  unfolding raise_last add_score
  raise_last-some c id [] raised e = cc
  raise_last-some c id (h ∷ hs) raised e = elim (Option-cases (raise_last fl c id hs)) [
    | inr (later, r) ↦
        let (same, m) = raise_last-some c id hs later r in
        let out = some_injective (rw r at e) in
        (
          subst (λ l. ids fl l ≡ ids fl (h ∷ hs)) out (ap (λ ns. h.thought.id.uuid ∷ ns) same),
          mem-cons.1 (Or.inr m),
        )
    | inl n ↦ elim (Bool-cases (same_id h.thought.id id)) [
      | inl s ↦ (
        subst (λ l. ids fl l ≡ ids fl (h ∷ hs)) (some_injective (rw (n, s) at e)) refl,
        mem-cons.1 (Or.inl (ground (arith, s))),
      )
      | inr s ↦ absurd (cc (rw (n, s) at e))
    ]
  ]

  ids-push :
      (h : Hit fl) (hs : List (Hit fl))
      → Perm (ids fl (hs ++ (h ∷ []))) (h.thought.id.uuid ∷ ids fl hs)
  ids-push h [] = Perm.refl (h.thought.id.uuid ∷ [])
  ids-push h (g ∷ hs) =
      Perm.trans (Perm.cons g.thought.id.uuid (ids-push h hs))
        (Perm.swap h.thought.id.uuid g.thought.id.uuid (ids fl hs))

  -- One round keeps the ids if the thought is there, and adds its id otherwise.
  merge_graph_hit-ids :
      (c : F) (hit : Hit fl) (fused : List (Hit fl))
      → ((ids fl (merge_graph_hit fl c hit fused) ≡ ids fl fused)
          × Mem hit.thought.id.uuid (ids fl fused))
        ⊎ (Perm (ids fl (merge_graph_hit fl c hit fused)) (hit.thought.id.uuid ∷ ids fl fused)
            × (¬ Mem hit.thought.id.uuid (ids fl fused)))
  unfolding merge_graph_hit
  merge_graph_hit-ids c hit fused = elim (Option-cases (raise_last fl c hit.thought.id fused)) [
    | inr (raised, r) ↦ rw r (inl (raise_last-some c hit.thought.id fused raised r))
    | inl n ↦ rw n (
        inr (
          ids-push (record hit { rrf_score = some c }) fused,
          raise_last-none c hit.thought.id fused n,
        ))
  ]

  merge_graph_hit-Mem :
      (c : F) (hit : Hit fl) (fused : List (Hit fl)) (x : ℕ)
      → Mem x (ids fl (merge_graph_hit fl c hit fused)) ↔ Mem x (hit.thought.id.uuid ∷ ids fl fused)
  merge_graph_hit-Mem c hit fused x = elim (merge_graph_hit-ids c hit fused) [
    | inl (same, there) ↦ (
      λ m. mem-cons.1 (Or.inr (subst (λ ns. Mem x ns) same m)),
      λ m.
          subst (λ ns. Mem x ns) (sym same)
            (Or.elim Mem-prop (mem-cons.0 m) (λ q. subst (λ y. Mem y (ids fl fused)) (sym q) there)
              (λ m. m)),
    )
    | inr (pushed, new) ↦ Perm.mem_iff pushed
  ]

  merge_graph_hit-Nodup :
      (c : F) (hit : Hit fl) (fused : List (Hit fl))
      → Nodup (ids fl fused)
      → Nodup (ids fl (merge_graph_hit fl c hit fused))
  merge_graph_hit-Nodup c hit fused d = elim (merge_graph_hit-ids c hit fused) [
    | inl (same, there) ↦ subst (λ ns. Nodup ns) (sym same) d
    | inr (pushed, new) ↦ Perm.nodup (Perm.symm pushed) (Nodup-cons.1 (new, d))
  ]

  merge_graph_hits-Nodup :
      (k : F) (i : ℕ) (ranking fused : List (Hit fl))
      → Nodup (ids fl fused)
      → Nodup (ids fl (merge_graph_hits fl k i ranking fused))
  unfolding merge_graph_hits
  merge_graph_hits-Nodup k i [] fused d = d
  merge_graph_hits-Nodup k i (hit ∷ ranking) fused d =
      merge_graph_hits-Nodup k (i + 1) ranking (merge_graph_hit fl (contribution fl k i) hit fused)
        (merge_graph_hit-Nodup (contribution fl k i) hit fused d)

  merge_graph_hits-Mem :
      (k : F) (i : ℕ) (ranking fused : List (Hit fl)) (x : ℕ)
      → Mem x (ids fl (merge_graph_hits fl k i ranking fused))
        ↔ (Mem x (ids fl fused) ∨₁ Mem x (ids fl ranking))
  unfolding merge_graph_hits
  merge_graph_hits-Mem k i [] fused x =
      (λ m. Or.inl m, λ o. Or.elim Mem-prop o (λ m. m) (λ m. absurd (not-mem-nil m)))
  merge_graph_hits-Mem k i (hit ∷ ranking) fused x =
      let next = merge_graph_hit fl (contribution fl k i) hit fused in
      let step = merge_graph_hit-Mem (contribution fl k i) hit fused x in
      let rest = merge_graph_hits-Mem k (i + 1) ranking next x in
      (
        λ m.
            Or.elim ∨₁_prop (rest.0 m)
              (λ in_next.
                Or.elim ∨₁_prop (mem-cons.0 (step.0 in_next)) (λ q. Or.inr (mem-cons.1 (Or.inl q)))
                  (λ m. Or.inl m))
              (λ later. Or.inr (mem-cons.1 (Or.inr later))),
        λ o.
            Or.elim Mem-prop o (λ m. rest.1 (Or.inl (step.1 (mem-cons.1 (Or.inr m)))))
              (λ m.
                Or.elim Mem-prop (mem-cons.0 m)
                  (λ q. rest.1 (Or.inl (step.1 (mem-cons.1 (Or.inl q)))))
                  (λ later. rest.1 (Or.inr later))),
      )

  -- Whatever the scores are, the merged ranking has each thought once if the fused one has.
  pub merge_graph_expansion-Nodup :
      (fused ranking : List (Hit fl)) (k : F)
      → Nodup (ids fl fused)
      → Nodup (ids fl (merge_graph_expansion fl fused ranking k))
  unfolding merge_graph_expansion
  merge_graph_expansion-Nodup fused [] k d = d
  merge_graph_expansion-Nodup fused (hit ∷ ranking) k d =
      let merged = merge_graph_hits fl k 0 (hit ∷ ranking) fused in
      Perm.nodup
        (Perm.symm (Perm.map (λ h. h.thought.id.uuid) (sort-perm (scores_before fl) merged)))
        (merge_graph_hits-Nodup k 0 (hit ∷ ranking) fused d)

  module _ (ordered : IsOrdered fl) where
    -- If `<` is a strict weak order, the fused ranking has each thought once and there is a neighbour,
    -- then the merged ranking has each thought once, holds exactly the thoughts of the fused ranking
    -- and the neighbours, and stands by falling score.
    pub merge_graph_expansion_lem :
        (fused : List (Hit fl)) (first : Hit fl) (others : List (Hit fl)) (k : F)
        → Nodup (ids fl fused)
        → Nodup (ids fl (merge_graph_expansion fl fused (first ∷ others) k))
          × ((x : ℕ)
              → Mem x (ids fl (merge_graph_expansion fl fused (first ∷ others) k))
                ↔ (Mem x (ids fl fused) ∨₁ Mem x (ids fl (first ∷ others))))
          × IsSorted (scores_before fl) (merge_graph_expansion fl fused (first ∷ others) k)
    unfolding merge_graph_expansion
    merge_graph_expansion_lem fused first others k d =
        let merged = merge_graph_hits fl k 0 (first ∷ others) fused in
        let same = Perm.map (λ h. h.thought.id.uuid) (sort-perm (scores_before fl) merged) in
        (
          merge_graph_expansion-Nodup fused (first ∷ others) k d,
          λ x.
              let joined = merge_graph_hits-Mem k 0 (first ∷ others) fused x in
              (λ m. joined.0 ((Perm.mem_iff same).0 m), λ o. (Perm.mem_iff same).1 (joined.1 o)),
          sort_hits-IsSorted fl ordered merged,
        )
