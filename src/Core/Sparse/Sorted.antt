-- ===== src/Core/Sparse/Sorted.antt =====
-- What a sparse vector of crates/kengram-core/src/sparse.rs holds.
use k_engram.Prelude.{
  ℕ, ◌+◌, ◌≤◌, ◌<◌, false, List, [], ◌∷◌, ◌≡◌, ◌≢◌, sym, ◌∙◌, ap, subst, arith, ◌==◌, ltb, leb,
  if◌then◌else◌, Bool-cases, inl, inr, All, ok, and_then, and_then_ok, if_err_ok, ok_injective,
}
use k_engram.Float.{Float}
use k_engram.Core.Sparse.{
  SparseEmbeddingModel, SparseWeight, SparseLexicalVector, add_weight, merge_weights, drop_zeros,
  finished, new_sparse, empty_vocab,
}

module _ (fl : Float) where
  open fl use {F, of_ℕ, add, is_finite, eqb}

  -- The token ids rise strictly, from `lo` on and below `hi`.
  abbrev pub Rising : ℕ → ℕ → List (SparseWeight fl) → Type 0
  Rising lo hi [] = Unit
  Rising lo hi (e ∷ entries) =
      (lo ≤ e.token_id) × (e.token_id < hi) × Rising (e.token_id + 1) hi entries

  Rising-mono :
      (lo lo' hi : ℕ) (es : List (SparseWeight fl)) → lo ≤ lo' → Rising lo' hi es → Rising lo hi es
  Rising-mono lo lo' hi [] h r = tt
  Rising-mono lo lo' hi (e ∷ es) h r = (omega (arith, r.0), r.1, r.2)

  add_weight-Rising :
      (lo hi token : ℕ) (w : F) (es : List (SparseWeight fl))
      → lo ≤ token
      → token < hi
      → Rising lo hi es
      → Rising lo hi (add_weight fl token w es)
  unfolding add_weight
  add_weight-Rising lo hi token w [] h k r = (h, k, tt)
  add_weight-Rising lo hi token w (e ∷ es) h k r = elim (Bool-cases (token == e.token_id)) [
    | inl same ↦ rw same r
    | inr other ↦ rw other (elim (Bool-cases (ltb token e.token_id)) [
      | inl below ↦ rw below (h, k, (ground (arith, below), r.1, r.2))
      | inr above ↦ rw above (
        r.0,
        r.1,
        add_weight-Rising (e.token_id + 1) hi token w es (ground (arith, other, above)) k r.2,
      )
    ])
  ]

  merge_weights-Rising :
      (vocab : ℕ) (merged ws out : List (SparseWeight fl))
      → Rising 0 vocab merged
      → merge_weights fl vocab merged ws ≡ ok out
      → Rising 0 vocab out
  unfolding merge_weights
  merge_weights-Rising vocab merged [] out r e = subst (Rising 0 vocab) (ok_injective e) r
  merge_weights-Rising vocab merged (w ∷ ws) out r e = elim (Bool-cases (leb vocab w.token_id)) [
    | inl over ↦ absurd (cc (rw over at e))
    | inr under ↦ elim (Bool-cases (is_finite w.weight)) [
      | inr infinite ↦ absurd (cc (rw (under, infinite) at e))
      | inl finite ↦ elim (Bool-cases (eqb w.weight (of_ℕ 0))) [
        | inl zero_weight ↦
            merge_weights-Rising vocab merged ws out r (rw (under, finite, zero_weight) at e)
        | inr other ↦
            merge_weights-Rising vocab (add_weight fl w.token_id w.weight merged) ws out
              (add_weight-Rising 0 vocab w.token_id w.weight merged (ground arith)
                (ground (arith, under)) r)
              (rw (under, finite, other) at e)
      ]
    ]
  ]

  drop_zeros-Rising :
      (lo hi : ℕ) (es : List (SparseWeight fl)) → Rising lo hi es → Rising lo hi (drop_zeros fl es)
  unfolding drop_zeros
  drop_zeros-Rising lo hi [] r = tt
  drop_zeros-Rising lo hi (e ∷ es) r = elim (Bool-cases (eqb e.weight (of_ℕ 0))) [
    | inl zero_sum ↦ rw zero_sum (
        Rising-mono lo (e.token_id + 1) hi (drop_zeros fl es) (omega (arith, r.0))
          (drop_zeros-Rising (e.token_id + 1) hi es r.2))
    | inr kept ↦ rw kept (r.0, r.1, drop_zeros-Rising (e.token_id + 1) hi es r.2)
  ]

  drop_zeros-All :
      (es : List (SparseWeight fl)) → All (λ e. eqb e.weight (of_ℕ 0) ≡ false) (drop_zeros fl es)
  unfolding drop_zeros
  drop_zeros-All [] = tt
  drop_zeros-All (e ∷ es) = elim (Bool-cases (eqb e.weight (of_ℕ 0))) [
    | inl zero_sum ↦ rw zero_sum (drop_zeros-All es)
    | inr kept ↦
        subst
          (λ b.
            All (λ e. eqb e.weight (of_ℕ 0) ≡ false)
              (if b then drop_zeros fl es else e ∷ drop_zeros fl es))
          (sym kept) (kept, drop_zeros-All es)
  ]

  finished_ok :
      (model : SparseEmbeddingModel) (es : List (SparseWeight fl)) (v : SparseLexicalVector fl)
      → finished fl model es ≡ ok v
      → (v.model ≡ model) × (v.weights ≡ es) × (v.weights ≢ [])
  finished_ok model [] v e = cc
  finished_ok model (w ∷ es) v e =
      let made = ok_injective e in
      (
        sym (ap (λ v. v.model) made),
        sym (ap (λ v. v.weights) made),
        λ none_left. cc (ap (λ v. v.weights) made ∙ none_left),
      )

  -- A sparse vector that is made keeps its model, and has at least one entry; its token ids rise
  -- strictly, so that no token stands twice, and are below the size of the vocabulary; and no
  -- weight is zero.
  pub new_sparse_lem :
      (model : SparseEmbeddingModel) (ws : List (SparseWeight fl)) (v : SparseLexicalVector fl)
      → new_sparse fl model ws ≡ ok v
      → (v.model ≡ model)
        × (v.weights ≢ [])
        × Rising 0 model.vocab_size v.weights
        × All (λ e. eqb e.weight (of_ℕ 0) ≡ false) v.weights
  unfolding new_sparse
  new_sparse_lem model ws v e =
      let (positive, chain) =
        if_err_ok (model.vocab_size == 0) empty_vocab
          (and_then (merge_weights fl model.vocab_size [] ws)
            (λ merged. finished fl model (drop_zeros fl merged)))
          v e in
      let (merged, merged_ok, made) =
        and_then_ok (merge_weights fl model.vocab_size [] ws)
          (λ merged. finished fl model (drop_zeros fl merged)) v chain in
      let (same, kept, some_left) = finished_ok model (drop_zeros fl merged) v made in
      (
        same,
        some_left,
        subst (Rising 0 model.vocab_size) (sym kept) (
            drop_zeros-Rising 0 model.vocab_size merged
              (merge_weights-Rising model.vocab_size [] ws merged tt merged_ok)),
        subst (All (λ e. eqb e.weight (of_ℕ 0) ≡ false)) (sym kept) (drop_zeros-All merged),
      )
