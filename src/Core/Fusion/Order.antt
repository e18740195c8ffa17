-- ===== src/Core/Fusion/Order.antt =====
-- The shape of the fused list: each thought once, the best first; and the recency boost.
use mathlib.Core.List.{Perm, Nodup, Nodup-cons, Nodup-nil, Mem, mem-cons, not-mem-nil}
use mathlib.Core.List.Perm
use mathlib.Core.Logic.Or
use mathlib.Core.HLevel.{⊥_prop}
use k_engram.Prelude.{
  unwrap_or, ℕ, ◌+◌, true, false, List, [], ◌∷◌, map, ◌≡◌, arith, All, Bool-cases, inl, inr, ap,
  sym, subst, refl,
}
use k_engram.Float.{Float, IsOrdered, le?}
use k_engram.Sorting.{sort, IsSorted, sort-perm, sort-IsSorted}
use k_engram.Core.Relation.{ThoughtId}
use k_engram.Core.Fusion.{
  Hit, same_id, accumulate, fuse_ranking, contribution, fuse_all, scores_before, rrf_fuse,
  boost_hit, recency_boost,
}

module _ (fl : Float) where
  open fl use {F, lt, of_ℕ}

  abbrev Distinct : List (Hit fl) → Type 0
  Distinct [] = Unit
  Distinct (h ∷ acc) = All (λ g. same_id h.thought.id g.thought.id ≡ false) acc × Distinct acc

  All-accumulate :
      (Q : ThoughtId → Type 0) (c : F) (hit : Hit fl) (acc : List (Hit fl))
      → Q hit.thought.id
      → All (λ g. Q g.thought.id) acc
      → All (λ g. Q g.thought.id) (accumulate fl c hit acc)
  unfolding accumulate
  All-accumulate Q c hit [] q h = (q, tt)
  All-accumulate Q c hit (g ∷ acc) q h = elim (Bool-cases (same_id g.thought.id hit.thought.id)) [
    | inl e ↦ rw e h
    | inr e ↦ rw e (h.0, All-accumulate Q c hit acc q h.1)
  ]

  accumulate-Distinct :
      (c : F) (hit : Hit fl) (acc : List (Hit fl))
      → Distinct acc
      → Distinct (accumulate fl c hit acc)
  unfolding accumulate
  accumulate-Distinct c hit [] d = (tt, tt)
  accumulate-Distinct c hit (g ∷ acc) d = elim (Bool-cases (same_id g.thought.id hit.thought.id)) [
    | inl e ↦ rw e d
    | inr e ↦ rw e (
      All-accumulate (λ id. same_id g.thought.id id ≡ false) c hit acc e d.0,
      accumulate-Distinct c hit acc d.1,
    )
  ]

  fuse_ranking-Distinct :
      (k : F) (i : ℕ) (ranking acc : List (Hit fl))
      → Distinct acc
      → Distinct (fuse_ranking fl k i ranking acc)
  unfolding fuse_ranking
  fuse_ranking-Distinct k i [] acc d = d
  fuse_ranking-Distinct k i (hit ∷ ranking) acc d =
      fuse_ranking-Distinct k (i + 1) ranking (accumulate fl (contribution fl k i) hit acc)
        (accumulate-Distinct (contribution fl k i) hit acc d)

  fuse_all-Distinct :
      (k : F) (rankings : List (List (Hit fl))) (acc : List (Hit fl))
      → Distinct acc
      → Distinct (fuse_all fl k rankings acc)
  unfolding fuse_all
  fuse_all-Distinct k [] acc d = d
  fuse_all-Distinct k (ranking ∷ rankings) acc d =
      fuse_all-Distinct k rankings (fuse_ranking fl k 0 ranking acc)
        (fuse_ranking-Distinct k 0 ranking acc d)

  abbrev pub ids : List (Hit fl) → List ℕ
  ids = map (λ h. h.thought.id.uuid)

  not-mem-ids :
      (id : ThoughtId) (acc : List (Hit fl))
      → All (λ g. same_id id g.thought.id ≡ false) acc
      → ¬ Mem id.uuid (ids acc)
  not-mem-ids id [] h m = not-mem-nil m
  not-mem-ids id (g ∷ acc) h m =
      Or.elim ⊥_prop (mem-cons.0 m) (λ e. ground (arith, h.0)) (not-mem-ids id acc h.1)

  Nodup-ids : (acc : List (Hit fl)) → Distinct acc → Nodup (ids acc)
  Nodup-ids [] d = Nodup-nil
  Nodup-ids (h ∷ acc) d = Nodup-cons.1 (not-mem-ids h.thought.id acc d.0, Nodup-ids acc d.1)

  -- Whatever the scores are, the fused list has each thought once.
  pub rrf_fuse-Nodup :
      (into_values : List (Hit fl) → List (Hit fl))
      (permutes : (l : List (Hit fl)) → Perm (into_values l) l) (rankings : List (List (Hit fl)))
      (k : F)
      → Nodup (ids (rrf_fuse fl into_values rankings k))
  unfolding rrf_fuse
  rrf_fuse-Nodup into_values permutes rankings k =
      let acc = fuse_all fl k rankings [] in
      let same = Perm.trans (sort-perm (scores_before fl) (into_values acc)) (permutes acc) in
      Perm.nodup (Perm.symm (Perm.map (λ h. h.thought.id.uuid) same))
        (Nodup-ids acc (fuse_all-Distinct k rankings [] tt))

  ids-map_boost :
      (half_life : F) (age_secs : ℕ → F) (hits : List (Hit fl))
      → ids (map (boost_hit fl half_life age_secs) hits) ≡ ids hits
  unfolding boost_hit
  ids-map_boost half_life age_secs [] = refl
  ids-map_boost half_life age_secs (h ∷ hits) =
      ap (λ ns. h.thought.id.uuid ∷ ns) (ids-map_boost half_life age_secs hits)

  pub recency_boost-Nodup :
      (half_life : F) (age_secs : ℕ → F) (hits : List (Hit fl))
      → Nodup (ids hits)
      → Nodup (ids (recency_boost fl half_life age_secs hits))
  unfolding recency_boost
  recency_boost-Nodup half_life age_secs hits d = elim (Bool-cases (le? fl half_life (of_ℕ 0))) [
    | inl off ↦ rw off d
    | inr on ↦ rw on (
        Perm.nodup
          (Perm.symm (
            Perm.map (λ h. h.thought.id.uuid)
              (sort-perm (scores_before fl) (map (boost_hit fl half_life age_secs) hits))))
          (subst (λ ns. Nodup ns) (sym (ids-map_boost half_life age_secs hits)) d))
  ]

  module _ (ordered : IsOrdered fl) where
    pub sort_hits-IsSorted :
        (hits : List (Hit fl)) → IsSorted (scores_before fl) (sort (scores_before fl) hits)
    unfolding scores_before
    sort_hits-IsSorted hits =
        sort-IsSorted (scores_before fl)
          (λ x y h.
            ordered.asym (unwrap_or y.rrf_score (of_ℕ 0)) (unwrap_or x.rrf_score (of_ℕ 0)) h)
          (λ x y z h k.
            ordered.trans (unwrap_or z.rrf_score (of_ℕ 0)) (unwrap_or y.rrf_score (of_ℕ 0))
              (unwrap_or x.rrf_score (of_ℕ 0)) k h)
          hits

    -- If `<` is a strict weak order, which holds as long as no NaN occurs: in whatever order the map
    -- gives up its values, the fused list has each thought once, holds what the accumulator holds, and
    -- stands by falling RRF score.
    pub rrf_fuse_lem :
        (into_values : List (Hit fl) → List (Hit fl))
        (permutes : (l : List (Hit fl)) → Perm (into_values l) l) (rankings : List (List (Hit fl)))
        (k : F)
        → Nodup (ids (rrf_fuse fl into_values rankings k))
          × Perm (rrf_fuse fl into_values rankings k) (fuse_all fl k rankings [])
          × IsSorted (scores_before fl) (rrf_fuse fl into_values rankings k)
    unfolding rrf_fuse
    rrf_fuse_lem into_values permutes rankings k =
        let acc = fuse_all fl k rankings [] in
        let same = Perm.trans (sort-perm (scores_before fl) (into_values acc)) (permutes acc) in
        (rrf_fuse-Nodup into_values permutes rankings k, same, sort_hits-IsSorted (into_values acc))

    -- If `<` is a strict weak order: with a half-life of at most zero nothing changes; else the hits
    -- are the boosted ones in another order, and none stands behind one with a lower score.
    pub recency_boost_lem :
        (half_life : F) (age_secs : ℕ → F) (hits : List (Hit fl))
        → (le? fl half_life (of_ℕ 0) ≡ true → recency_boost fl half_life age_secs hits ≡ hits)
          × (le? fl half_life (of_ℕ 0) ≡ false
              → Perm
                  (recency_boost fl half_life age_secs hits)
                  (map (boost_hit fl half_life age_secs) hits)
                × IsSorted (scores_before fl) (recency_boost fl half_life age_secs hits))
    unfolding recency_boost
    recency_boost_lem half_life age_secs hits =
        let boosted = map (boost_hit fl half_life age_secs) hits in
        (
          λ off. rw off,
          λ on. rw on (sort-perm (scores_before fl) boosted, sort_hits-IsSorted boosted),
        )
