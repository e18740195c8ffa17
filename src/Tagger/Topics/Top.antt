-- ===== src/Tagger/Topics/Top.antt =====
-- Which topics a thought gets in crates/kengram-tagger-deterministic/src/topics.rs.
use k_engram.Prelude.{
  ℕ, zero, suc, ◌≤◌, Bool, true, false, List, [], ◌∷◌, map, some, ◌≡◌, refl, ◌∙◌, ap, sym, inl, inr,
  ◌⊎◌, arith, Bool-cases, ok, and_then_ok, ok_injective, length, length-take, take, In, All,
  All-take, filter_map, filter_map-All, In-filter_map, All-In, unwrap_or, some_injective,
}
use k_engram.Text.{Text, codes}
use k_engram.Float.{Float, IsOrdered, le?}
use k_engram.Sorting.{sort, sort-IsSorted, IsSorted, All-sort, insert}
use k_engram.Tagger.Kind.{cosine_similarity, Embed, embed_one}
use k_engram.Tagger.Topics.{TaxonomyEntry, scored, higher, top_topics, classify_topics}

module _ (fl : Float) where
  open fl use {F, lt}

  -- A label with the score of its entry, which reaches the entry's threshold or else the default.
  abbrev pub IsMatch : List F → F → List (TaxonomyEntry fl) → Text × F → Type 0
  IsMatch content default_threshold entries t =
      (entry : TaxonomyEntry fl) × In entry entries
      × (t ≡ (entry.label, cosine_similarity fl content entry.description_vector))
      × (le? fl (unwrap_or entry.threshold default_threshold) t.1 ≡ true)

  scored-some :
      (content : List F) (default_threshold : F) (entry : TaxonomyEntry fl) (t : Text × F)
      → scored fl content default_threshold entry ≡ some t
      → (t ≡ (entry.label, cosine_similarity fl content entry.description_vector))
        × (le? fl (unwrap_or entry.threshold default_threshold) t.1 ≡ true)
  scored-some content default_threshold entry t e =
      let score = cosine_similarity fl content entry.description_vector in
      elim (Bool-cases (le? fl (unwrap_or entry.threshold default_threshold) score)) [
        | inl reached ↦
            let same : (entry.label, score) ≡ t = some_injective (rw reached at e) in
            (
              sym same,
              ap (λ (q : Text × F). le? fl (unwrap_or entry.threshold default_threshold) q.1)
                    (sym same)
                  ∙ reached,
            )
        | inr short ↦ absurd (cc (rw short at e))
      ]

module _ {A : Type 0} (before : A → A → Bool) where
  In-insert : (y x : A) (xs : List A) → In y (x ∷ xs) → In y (insert before x xs)
  unfolding insert
  In-insert y x [] m = m
  In-insert y x (z ∷ xs) m = elim (Bool-cases (before z x)) [
    | inl e ↦ rw e (elim m [
      | inl same ↦ inr (In-insert y x xs (inl same))
      | inr (inl same) ↦ inl same
      | inr (inr later) ↦ inr (In-insert y x xs (inr later))
    ])
    | inr n ↦ rw n m
  ]

  In-sort : (y : A) (xs : List A) → In y xs → In y (sort before xs)
  unfolding sort
  In-sort y [] m = m
  In-sort y (x ∷ xs) (inl same) = In-insert y x (sort before xs) (inl same)
  In-sort y (x ∷ xs) (inr later) = In-insert y x (sort before xs) (inr (In-sort y xs later))

  -- In a sorted list, what is not in the front part does not belong before any of it.
  not_before_front :
      (n : ℕ) (y : A) (xs : List A)
      → IsSorted before xs
      → In y xs
      → In y (take n xs) ⊎ All (λ x. before y x ≡ false) (take n xs)
  not_before_front zero y xs s m = inr tt
  not_before_front (suc n) y [] s m = inr tt
  not_before_front (suc n) y (x ∷ xs) s (inl same) = inl (inl same)
  not_before_front (suc n) y (x ∷ xs) s (inr later) = elim (not_before_front n y xs s.1 later) [
    | inl there ↦ inl (inr there)
    | inr all ↦ inr (All-In (λ z. before z x ≡ false) y xs s.0 later, all)
  ]

module _ (fl : Float) (ordered : IsOrdered fl) where
  open fl use {F, lt}

  sorted : (ts : List (Text × F)) → IsSorted (higher fl) (sort (higher fl) ts)
  sorted ts =
      sort-IsSorted (higher fl) (λ x y h. ordered.asym y.1 x.1 h)
        (λ x y z h k. ordered.trans z.1 y.1 x.1 k h) ts

  -- The topics are at most three, each is a match, and a match that is left out exceeds none of them.
  pub record IsTop (content : List F) (default_threshold : F) (entries : List (TaxonomyEntry fl))
      (ts : List (Text × F)) : Type 0 where
    pub bounded : length ts ≤ 3
    pub matches : All (IsMatch fl content default_threshold entries) ts
    pub left_out :
        (entry : TaxonomyEntry fl) (t : Text × F)
        → In entry entries
        → scored fl content default_threshold entry ≡ some t
        → In t ts ⊎ All (λ s. lt s.1 t.1 ≡ false) ts

  all-IsMatch :
      (content : List F) (default_threshold : F) (entries : List (TaxonomyEntry fl))
      (ts : List (Text × F))
      → All
          (λ t.
            (entry : TaxonomyEntry fl) × In entry entries
            × (scored fl content default_threshold entry ≡ some t))
          ts
      → All (IsMatch fl content default_threshold entries) ts
  all-IsMatch content default_threshold entries [] h = tt
  all-IsMatch content default_threshold entries (t ∷ ts) h =
      let (entry, there, e) = h.0 in
      let (same, reached) = scored-some fl content default_threshold entry t e in
      ((entry, there, same, reached), all-IsMatch content default_threshold entries ts h.1)

  top_topics-IsTop :
      (content : List F) (default_threshold : F) (entries : List (TaxonomyEntry fl))
      → IsTop content default_threshold entries (top_topics fl content default_threshold entries)
  unfolding top_topics
  top_topics-IsTop content default_threshold entries =
      let found = filter_map (scored fl content default_threshold) entries in
      record {
        bounded = omega (arith, length-take 3 (sort (higher fl) found));
        matches =
            All-take (IsMatch fl content default_threshold entries) 3 (sort (higher fl) found) (
              All-sort (higher fl) (IsMatch fl content default_threshold entries) found (
                all-IsMatch content default_threshold entries found
                  (filter_map-All (scored fl content default_threshold) entries)));
        left_out = λ entry t there e.
            not_before_front (higher fl) 3 t (sort (higher fl) found) (sorted found) (
              In-sort (higher fl) t found
                (In-filter_map (scored fl content default_threshold) entries entry t there e));
      }

  -- If < is a strict weak order (no NaN occurs) and a classification succeeds, there is no taxonomy and
  -- no topic, or the embedder gave a vector of the content and the topics are the labels of at most
  -- three entries whose similarity reaches their threshold, and an entry that reaches its own and is
  -- left out exceeds none of them.
  pub classify_topics-IsTop :
      (mismatch : ℕ → ℕ → Text) (embed : Embed fl) (content : Text)
      (entries : List (TaxonomyEntry fl)) (default_threshold : F) (topics : List Text)
      → classify_topics fl mismatch embed content entries default_threshold ≡ ok topics
      → ((entries ≡ []) × (topics ≡ []))
        ⊎ ((v : List F) × (ts : List (Text × F)) × (embed_one fl mismatch embed
                (codes "topics classify: empty embed result")
                content
              ≡ ok v)
            × (topics ≡ map (λ t. t.0) ts)
            × IsTop v default_threshold entries ts)
  unfolding classify_topics
  classify_topics-IsTop mismatch embed content [] default_threshold topics e =
      inl (refl, sym (ok_injective e))
  classify_topics-IsTop mismatch embed content (entry ∷ entries) default_threshold topics e =
      let (v, embedded, same) =
        and_then_ok
          (embed_one fl mismatch embed (codes "topics classify: empty embed result") content)
          (λ v.
            ok (map (λ (t : Text × F). t.0) (top_topics fl v default_threshold (entry ∷ entries))))
          topics e in
      inr (
        v,
        top_topics fl v default_threshold (entry ∷ entries),
        embedded,
        sym (ok_injective same),
        top_topics-IsTop v default_threshold (entry ∷ entries),
      )
