-- ===== src/Tagger/Kind/Best.antt =====
-- The chosen kind is the most similar one, in crates/kengram-tagger-deterministic/src/kind.rs.
use k_engram.Prelude.{
  ℕ, true, false, List, [], ◌∷◌, Option, none, some, ◌≡◌, refl, ◌∙◌, ap, sym, subst, ◌⊎◌, inl, inr,
  arith, Bool-cases, ok, and_then_ok, ok_injective, In, All,
}
use k_engram.Text.{Text, codes}
use k_engram.Float.{Float, IsOrdered, le?, le?-false}
use k_engram.Core.Tags.{TagKind}
use k_engram.Tagger.Kind.{
  Embed, Entry, cosine_similarity, best_kind, confident, embed_one, classify_kind,
}

module _ (fl : Float) (ordered : IsOrdered fl) (content : List fl.F) where
  open fl use {F, lt}

  abbrev score_of : Entry fl → F
  score_of e = cosine_similarity fl content e.1

  no_loop : (x : F) → lt x x ≡ false
  no_loop x = elim (Bool-cases (lt x x)) [ inl e ↦ ordered.asym x x e | inr n ↦ n ]

  -- The outcome of the loop, begun with a kind and its score.
  abbrev Outcome : TagKind → F → List (Entry fl) → TagKind × F → Type 0
  Outcome k b entries r =
      ((r ≡ (k, b)) ⊎ ((e : Entry fl) × In e entries × (r ≡ (e.0, score_of e))))
      × (lt r.1 b ≡ false)
      × All (λ e. lt r.1 (score_of e) ≡ false) entries

  best_kind-Outcome :
      (k : TagKind) (b : F) (entries : List (Entry fl))
      → (r : TagKind × F) × (best_kind fl content (some (k, b)) entries ≡ some r)
        × Outcome k b entries r
  unfolding best_kind
  best_kind-Outcome k b [] = ((k, b), refl, (inl refl, no_loop b, tt))
  best_kind-Outcome k b (e ∷ entries) = elim (Bool-cases (lt b (score_of e))) [
    | inl higher ↦
        let (r, found, (from, above, all)) = best_kind-Outcome e.0 (score_of e) entries in
        (
          r,
          rw higher found,
          (
            elim from [
              | inl same ↦ inr (e, inl refl, same)
              | inr (f, there, same) ↦ inr (f, inr there, same)
            ],
            ordered.trans b (score_of e) r.1 (ordered.asym b (score_of e) higher) above,
            (above, all),
          ),
        )
    | inr lower ↦
        let (r, found, (from, above, all)) = best_kind-Outcome k b entries in
        (
          r,
          rw lower found,
          (
            elim from [ inl same ↦ inl same | inr (f, there, same) ↦ inr (f, inr there, same) ],
            above,
            (ordered.trans (score_of e) b r.1 lower above, all),
          ),
        )
  ]

  best_entry :
      (e : Entry fl) (entries : List (Entry fl))
      → (f : Entry fl) × In f (e ∷ entries)
        × (best_kind fl content none (e ∷ entries) ≡ some (f.0, score_of f))
        × All (λ g. lt (score_of f) (score_of g) ≡ false) (e ∷ entries)
  unfolding best_kind
  best_entry e entries =
      let (r, found, (from, above, all)) = best_kind-Outcome e.0 (score_of e) entries in
      elim from [
        | inl same ↦ (
          e,
          inl refl,
          found ∙ ap some same,
          subst (λ (q : TagKind × F). All (λ g. lt q.1 (score_of g) ≡ false) (e ∷ entries)) same
              (above, all),
        )
        | inr (f, there, same) ↦ (
          f,
          inr there,
          found ∙ ap some same,
          subst (λ (q : TagKind × F). All (λ g. lt q.1 (score_of g) ≡ false) (e ∷ entries)) same
              (above, all),
        )
      ]

  short_of :
      (threshold best s : F)
      → le? fl threshold best ≡ false
      → lt best s ≡ false
      → le? fl threshold s ≡ false
  short_of threshold best s h k = ground (
    arith,
    le?-false fl ordered threshold best h,
    ordered.trans threshold s best,
    ordered.asym s threshold,
    ordered.eq threshold s,
  )

  all_short :
      (threshold best : F) (entries : List (Entry fl))
      → le? fl threshold best ≡ false
      → All (λ g. lt best (score_of g) ≡ false) entries
      → All (λ g. le? fl threshold (score_of g) ≡ false) entries
  all_short threshold best [] h k = tt
  all_short threshold best (e ∷ entries) h k =
      (short_of threshold best (score_of e) h k.0, all_short threshold best entries h k.1)

  -- A kind is the one of an entry that reaches the threshold and that no entry exceeds; and no kind
  -- means that no entry reaches the threshold.
  abbrev pub IsBest : F → List (Entry fl) → Option TagKind → Type 0
  IsBest threshold entries none = All (λ e. le? fl threshold (score_of e) ≡ false) entries
  IsBest threshold entries (some k) =
      (e : Entry fl) × In e entries
      × (e.0 ≡ k)
      × (le? fl threshold (score_of e) ≡ true)
      × All (λ f. lt (score_of e) (score_of f) ≡ false) entries

  confident-IsBest :
      (threshold : F) (entries : List (Entry fl))
      → IsBest threshold entries (confident fl threshold (best_kind fl content none entries))
  unfolding best_kind
  confident-IsBest threshold [] = tt
  confident-IsBest threshold (e ∷ entries) =
      let (f, there, found, all) = best_entry e entries in
      subst (λ o. IsBest threshold (e ∷ entries) (confident fl threshold o)) (sym found)
        (elim (Bool-cases (le? fl threshold (score_of f))) [
          | inl reached ↦ rw reached (f, there, refl, reached, all)
          | inr short ↦ rw short (all_short threshold (score_of f) (e ∷ entries) short all)
        ])

module _ (fl : Float) (ordered : IsOrdered fl) (mismatch : ℕ → ℕ → Text) (embed : Embed fl) where
  -- If < is a strict weak order (no NaN occurs) and a classification succeeds, then the embedder gave a
  -- vector of the content, and the kind is that of a prototype whose similarity to it reaches the
  -- threshold and is exceeded by no other; there is no kind only if no prototype reaches the threshold.
  pub classify_kind-IsBest :
      (content : Text) (prototypes : List (Entry fl)) (threshold : fl.F) (kind : Option TagKind)
      → classify_kind fl mismatch embed content prototypes threshold ≡ ok kind
      → (v : List fl.F) × (embed_one fl mismatch embed
            (codes "kind classify: empty embed result")
            content
          ≡ ok v)
        × IsBest fl ordered v threshold prototypes kind
  unfolding classify_kind
  classify_kind-IsBest content prototypes threshold kind e =
      let (v, embedded, same) =
        and_then_ok
          (embed_one fl mismatch embed (codes "kind classify: empty embed result") content)
          (λ v. ok (confident fl threshold (best_kind fl v none prototypes))) kind e in
      (
        v,
        embedded,
        subst (IsBest fl ordered v threshold prototypes) (ok_injective same)
            (confident-IsBest fl ordered v threshold prototypes),
      )
