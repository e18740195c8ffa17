-- ===== src/Core/Sparse.antt =====
-- crates/kengram-core/src/sparse.rs: the sparse lexical vector, over an interface of floating-point
-- numbers.
pub mod Sorted
pub mod Tests
use k_engram.Prelude.{
  ℕ, ◌+◌, Bool, true, false, not, List, [], ◌∷◌, ◌==◌, ltb, leb, if◌then◌else◌, is_empty, length,
  Result, ok, err, and_then,
}
use k_engram.Text.{Text}
use k_engram.Float.{Float}

pub record SparseEmbeddingModel : Type 0 where
  pub id : Text
  pub version : ℕ
  pub vocab_size : ℕ

pub data SparseVectorError : Type 0 where
  empty_vocab : SparseVectorError
  empty_weights : SparseVectorError
  token_out_of_range : ℕ → ℕ → SparseVectorError
  non_finite_weight : ℕ → SparseVectorError

module _ (fl : Float) where
  open fl use {F, of_ℕ, add, is_finite, eqb}

  pub record SparseWeight : Type 0 where
    pub token_id : ℕ
    pub weight : F

  pub record SparseLexicalVector : Type 0 where
    pub model : SparseEmbeddingModel
    pub weights : List SparseWeight

  -- `*merged.entry(token_id).or_insert(0.0) += weight`, the map by its entries in the order of keys.
  unfoldable pub add_weight : ℕ → F → List SparseWeight → List SparseWeight
  add_weight token w [] = record { token_id = token; weight = add (of_ℕ 0) w } ∷ []
  add_weight token w (e ∷ entries) =
      let rest = add_weight token w entries in
      if token == e.token_id
      then record e { weight = add e.weight w } ∷ entries
      else if ltb token e.token_id
      then record { token_id = token; weight = add (of_ℕ 0) w } ∷ e ∷ entries
      else e ∷ rest

  -- The loop over the given weights.
  unfoldable pub merge_weights :
      ℕ → List SparseWeight → List SparseWeight → Result SparseVectorError (List SparseWeight)
  merge_weights vocab_size merged [] = ok merged
  merge_weights vocab_size merged (w ∷ ws) =
      let next = if eqb w.weight (of_ℕ 0) then merged else add_weight w.token_id w.weight merged in
      let rest = merge_weights vocab_size next ws in
      if leb vocab_size w.token_id
      then err (token_out_of_range w.token_id vocab_size)
      else if not (is_finite w.weight)
      then err (non_finite_weight w.token_id)
      else rest

  -- The entries whose sum is not zero.
  unfoldable pub drop_zeros : List SparseWeight → List SparseWeight
  drop_zeros [] = []
  drop_zeros (e ∷ entries) =
      let rest = drop_zeros entries in if eqb e.weight (of_ℕ 0) then rest else e ∷ rest

  abbrev pub finished :
      SparseEmbeddingModel → List SparseWeight → Result SparseVectorError SparseLexicalVector
  finished model [] = err empty_weights
  finished model (w ∷ ws) = ok (record { model = model; weights = w ∷ ws })

  -- `SparseLexicalVector::new`.
  unfoldable pub new_sparse :
      SparseEmbeddingModel → List SparseWeight → Result SparseVectorError SparseLexicalVector
  new_sparse model weights =
      if model.vocab_size == 0
      then err empty_vocab
      else and_then (merge_weights model.vocab_size [] weights)
          (λ merged. finished model (drop_zeros merged))

  unfoldable pub nonzero_count : SparseLexicalVector → ℕ
  nonzero_count v = length v.weights
