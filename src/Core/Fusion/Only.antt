-- ===== src/Core/Fusion/Only.antt =====
-- What holds of the thoughts of all rankings holds of the fused one, in
-- crates/kengram-core/src/search.rs.
use mathlib.Core.List.{Perm, Mem, mem-cons, not-mem-nil}
use mathlib.Core.List.Perm
use mathlib.Core.Logic.Or
use mathlib.Core.Bool.{Bool-set}
use k_engram.Prelude.{
  ℕ, ◌+◌, Bool, true, List, [], ◌∷◌, map, ◌≡◌, refl, ◌∙◌, ap, inl, inr, Bool-cases, All,
}
use k_engram.Float.{Float, le?}
use k_engram.Sorting.{All-sort}
use k_engram.Core.Fusion.{
  Hit, Thought, same_id, contribution, merge_into, first_seen, accumulate, fuse_ranking, fuse_all,
  scores_before, rrf_fuse, boost_hit, recency_boost,
}

module _ {A : Type 0} (p : A → Bool) where
  All-Mem : (x : A) (xs : List A) → All (λ a. p a ≡ true) xs → Mem x xs → p x ≡ true
  All-Mem x [] h m = absurd (not-mem-nil m)
  All-Mem x (y ∷ xs) h m =
      Or.elim (Bool-set (p x) true) (mem-cons.0 m) (λ e. ap p e ∙ h.0) (All-Mem x xs h.1)

  All-of_Mem : (xs : List A) → ((x : A) → Mem x xs → p x ≡ true) → All (λ a. p a ≡ true) xs
  All-of_Mem [] f = tt
  All-of_Mem (x ∷ xs) f =
      (f x (mem-cons.1 (Or.inl refl)), All-of_Mem xs (λ y m. f y (mem-cons.1 (Or.inr m))))

  pub All-perm : (xs ys : List A) → Perm xs ys → All (λ a. p a ≡ true) ys → All (λ a. p a ≡ true) xs
  All-perm xs ys same h = All-of_Mem xs (λ x m. All-Mem x ys h ((Perm.mem_iff same).0 m))

module _ (fl : Float) (p : Thought → Bool) where
  -- Every hit is of a thought that passes the test.
  abbrev pub Only : List (Hit fl) → Type 0
  Only = All (λ h. p h.thought ≡ true)

  Only-accumulate :
      (c : fl.F) (hit : Hit fl) (acc : List (Hit fl))
      → p hit.thought ≡ true
      → Only acc
      → Only (accumulate fl c hit acc)
  unfolding accumulate merge_into first_seen
  Only-accumulate c hit [] e h = (e, tt)
  Only-accumulate c hit (g ∷ acc) e h = elim (Bool-cases (same_id g.thought.id hit.thought.id)) [
    | inl s ↦ rw s h
    | inr n ↦ rw n (h.0, Only-accumulate c hit acc e h.1)
  ]

  Only-fuse_ranking :
      (k : fl.F) (i : ℕ) (ranking acc : List (Hit fl))
      → Only ranking
      → Only acc
      → Only (fuse_ranking fl k i ranking acc)
  unfolding fuse_ranking
  Only-fuse_ranking k i [] acc r h = h
  Only-fuse_ranking k i (hit ∷ ranking) acc r h =
      Only-fuse_ranking k (i + 1) ranking (accumulate fl (contribution fl k i) hit acc) r.1
        (Only-accumulate (contribution fl k i) hit acc r.0 h)

  Only-fuse_all :
      (k : fl.F) (rankings : List (List (Hit fl))) (acc : List (Hit fl))
      → All Only rankings
      → Only acc
      → Only (fuse_all fl k rankings acc)
  unfolding fuse_all
  Only-fuse_all k [] acc r h = h
  Only-fuse_all k (ranking ∷ rankings) acc r h =
      Only-fuse_all k rankings (fuse_ranking fl k 0 ranking acc) r.1
        (Only-fuse_ranking k 0 ranking acc r.0 h)

  pub Only-rrf_fuse :
      (into_values : List (Hit fl) → List (Hit fl))
      → ((l : List (Hit fl)) → Perm (into_values l) l)
      → (rankings : List (List (Hit fl))) (k : fl.F) → All Only rankings
      → Only (rrf_fuse fl into_values rankings k)
  unfolding rrf_fuse
  Only-rrf_fuse into_values permutes rankings k r =
      let acc = fuse_all fl k rankings [] in
      All-sort (scores_before fl) (λ h. p h.thought ≡ true) (into_values acc)
        (All-perm (λ h. p h.thought) (into_values acc) acc (permutes acc)
          (Only-fuse_all k rankings [] r tt))

  Only-map_boost :
      (half_life : fl.F) (age_secs : ℕ → fl.F) (hits : List (Hit fl))
      → Only hits
      → Only (map (boost_hit fl half_life age_secs) hits)
  unfolding boost_hit
  Only-map_boost half_life age_secs [] h = tt
  Only-map_boost half_life age_secs (g ∷ hits) h = (h.0, Only-map_boost half_life age_secs hits h.1)

  pub Only-recency_boost :
      (half_life : fl.F) (age_secs : ℕ → fl.F) (hits : List (Hit fl))
      → Only hits
      → Only (recency_boost fl half_life age_secs hits)
  unfolding recency_boost
  Only-recency_boost half_life age_secs hits h = elim (Bool-cases (le? fl half_life (fl.of_ℕ 0))) [
    | inl off ↦ rw off h
    | inr on ↦ rw on (
        All-sort (scores_before fl) (λ g. p g.thought ≡ true)
          (map (boost_hit fl half_life age_secs) hits) (Only-map_boost half_life age_secs hits h))
  ]
