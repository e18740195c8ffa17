-- ===== src/Core/Sparse/Tests.antt =====
-- A vector of three weights, two of them of one token.
use k_engram.Prelude.{ℕ, [], ◌∷◌, ◌≡◌, ◌≢◌, refl, false, All, ok, err, ◌==◌}
use k_engram.Text.{codes}
use k_engram.Float.{thousandths}
use k_engram.Core.Sparse.{
  SparseEmbeddingModel, SparseWeight, SparseLexicalVector, add_weight, merge_weights, drop_zeros,
  new_sparse, empty_weights, token_out_of_range,
}
use k_engram.Core.Sparse.Sorted.{Rising, new_sparse_lem}

abbrev model : SparseEmbeddingModel
model = record { id = codes "m"; version = 1; vocab_size = 9 }

abbrev entry : ℕ → ℕ → SparseWeight thousandths
entry t w = record { token_id = t; weight = w }

abbrev made : SparseLexicalVector thousandths
made = record { model = model; weights = entry 2 500 ∷ entry 7 400 ∷ [] }

new_sparse-made :
    new_sparse thousandths model (entry 7 300 ∷ entry 2 500 ∷ entry 4 0 ∷ entry 7 100 ∷ [])
    ≡ ok made
unfolding new_sparse merge_weights add_weight drop_zeros
new_sparse-made = refl

new_sparse_empty : new_sparse thousandths model (entry 4 0 ∷ []) ≡ err empty_weights
unfolding new_sparse merge_weights add_weight drop_zeros
new_sparse_empty = refl

new_sparse_range :
    new_sparse thousandths model (entry 4 1 ∷ entry 9 1 ∷ []) ≡ err (token_out_of_range 9 9)
unfolding new_sparse merge_weights add_weight drop_zeros
new_sparse_range = refl

new_sparse_lem_example :
    (model ≡ model)
    × ((entry 2 500 ∷ entry 7 400 ∷ []) ≢ [])
    × Rising thousandths 0 9 (entry 2 500 ∷ entry 7 400 ∷ [])
    × All (λ e. (e.weight == 0) ≡ false) (entry 2 500 ∷ entry 7 400 ∷ [])
new_sparse_lem_example =
    new_sparse_lem thousandths model (entry 7 300 ∷ entry 2 500 ∷ entry 4 0 ∷ entry 7 100 ∷ []) made
      new_sparse-made
