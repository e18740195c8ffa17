-- ===== src/Core/Fusion/Legs.antt =====
-- The fields of a fused hit, each described without the loop.
use k_engram.Prelude.{or_else, List, [], ◌∷◌, ◌≡◌, refl, sym, ◌∙◌, ap, Option, none, some}
use k_engram.Float.{Float}
use k_engram.Core.Relation.{ThoughtId}
use k_engram.Core.Fusion.{Hit, merge_into, first_seen, fuse_all}
use k_engram.Core.Fusion.Accumulate.{found, occurrences, absorb_all, found-fuse_all}

module _ (fl : Float) where
  open fl use {F, add, of_ℕ}

  -- The sum of the contributions, from the left.
  abbrev pub sum_from : F → List (F × Hit fl) → F
  sum_from s [] = s
  sum_from s ((c, hit) ∷ xs) = sum_from (add s c) xs

  -- The first value that a leg gave.
  abbrev pub first_some {ℓ} : {X : Type ℓ} → (Hit fl → Option X) → List (F × Hit fl) → Option X
  first_some leg [] = none
  first_some leg ((c, hit) ∷ xs) = or_else (leg hit) (first_some leg xs)

  -- What the fused hit of a thought with the occurrences `(c, hit) ∷ xs` must be.
  pub record IsMerge (c : F) (hit : Hit fl) (xs : List (F × Hit fl)) (h : Hit fl) : Type 0 where
    pub thought : h.thought ≡ hit.thought
    pub rrf : h.rrf_score ≡ some (sum_from c xs)
    pub vector : h.vector_score ≡ or_else hit.vector_score (first_some (λ x. x.vector_score) xs)
    pub lexical : h.lexical_score ≡ or_else hit.lexical_score (first_some (λ x. x.lexical_score) xs)
    pub trigram : h.trigram_score ≡ or_else hit.trigram_score (first_some (λ x. x.trigram_score) xs)
    pub chunk : h.chunk ≡ or_else hit.chunk (first_some (λ x. x.chunk) xs)
    pub rerank : h.rerank_score ≡ none

  abbrev Merged : Hit fl → List (F × Hit fl) → Hit fl → F → Type 0
  Merged g xs h s =
      (h.thought ≡ g.thought)
      × (h.rrf_score ≡ some (sum_from s xs))
      × (h.vector_score ≡ or_else g.vector_score (first_some (λ x. x.vector_score) xs))
      × (h.lexical_score ≡ or_else g.lexical_score (first_some (λ x. x.lexical_score) xs))
      × (h.trigram_score ≡ or_else g.trigram_score (first_some (λ x. x.trigram_score) xs))
      × (h.chunk ≡ or_else g.chunk (first_some (λ x. x.chunk) xs))
      × (h.rerank_score ≡ g.rerank_score)

  or_else-none {ℓ} : {X : Type ℓ} (o : Option X) → or_else o none ≡ o
  or_else-none none = refl
  or_else-none (some x) = refl

  or_else_assoc {ℓ} :
      {X : Type ℓ} (a b c : Option X) → or_else (or_else a b) c ≡ or_else a (or_else b c)
  or_else_assoc none b c = refl
  or_else_assoc (some x) b c = refl

  absorb_all-Merged :
      (g : Hit fl) (s : F) (xs : List (F × Hit fl))
      → g.rrf_score ≡ some s
      → (h : Hit fl) × (absorb_all fl (some g) xs ≡ some h) × Merged g xs h s
  unfolding merge_into
  absorb_all-Merged g s [] e = (
    g,
    refl,
    (
      refl,
      e,
      sym (or_else-none g.vector_score),
      sym (or_else-none g.lexical_score),
      sym (or_else-none g.trigram_score),
      sym (or_else-none g.chunk),
      refl,
    ),
  )
  absorb_all-Merged g s ((c, hit) ∷ xs) e =
      let (h, p, m) = absorb_all-Merged (merge_into fl c g hit) (add s c) xs (rw e) in
      (
        h,
        p,
        (
          m.0,
          m.1,
          m.2 ∙ or_else_assoc g.vector_score hit.vector_score _,
          m.3 ∙ or_else_assoc g.lexical_score hit.lexical_score _,
          m.4 ∙ or_else_assoc g.trigram_score hit.trigram_score _,
          m.5 ∙ or_else_assoc g.chunk hit.chunk _,
          m.6,
        ),
      )

  -- A thought of some ranking has one fused hit: its data are those of its first occurrence, its
  -- RRF score is the sum of `1 / (k + rank)` over its occurrences, each leg score and the chunk are
  -- the first that any occurrence carries, and no rerank score is set.
  pub fuse_all-IsMerge :
      (id : ThoughtId) (k : F) (rankings : List (List (Hit fl))) (c : F) (hit : Hit fl)
      (xs : List (F × Hit fl))
      → occurrences fl k id rankings ≡ (c, hit) ∷ xs
      → (h : Hit fl) × (found fl id (fuse_all fl k rankings []) ≡ some h) × IsMerge c hit xs h
  unfolding first_seen
  fuse_all-IsMerge id k rankings c hit xs e =
      let (h, p, m) = absorb_all-Merged (first_seen fl c hit) c xs refl in
      (
        h,
        found-fuse_all fl id k rankings ∙ ap (absorb_all fl none) e ∙ p,
        record {
          thought = m.0;
          rrf = m.1;
          vector = m.2;
          lexical = m.3;
          trigram = m.4;
          chunk = m.5;
          rerank = m.6;
        },
      )
