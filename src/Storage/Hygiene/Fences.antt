-- ===== src/Storage/Hygiene/Fences.antt =====
-- Which thoughts and chunks the fences of crates/kengram-storage/src/lib.rs let through.
use k_engram.Prelude.{ℕ, false, Option, none, some, ◌≡◌, refl, ◌↔◌, arith}
use k_engram.Text.{Text, codes, starts_with}
use k_engram.Core.Json.{Value}
use k_engram.Storage.Hygiene.{
  text_trips_eval_contamination, source_file_trips_eval_contamination, known_eval_thought_id,
  contamination_rejection_reason, thought_index_denial_reason, chunk_index_denial_reason, or_chunk,
}

-- A thought that is neither retracted, archived, nor evaluation material.
abbrev pub IsClean : ℕ → Text → Value → Text → Option ℕ → Type 0
IsClean id scope metadata content retracted_at =
    (retracted_at ≡ none)
    × (starts_with (codes "archive.") scope ≡ false)
    × (known_eval_thought_id id ≡ false)
    × (source_file_trips_eval_contamination metadata ≡ false)
    × (text_trips_eval_contamination content ≡ false)

-- A thought may be indexed exactly if it is clean.
pub thought_index_denial_reason-none :
    (id : ℕ) (scope : Text) (metadata : Value) (content : Text) (retracted_at : Option ℕ)
    → (thought_index_denial_reason id scope metadata content retracted_at ≡ none)
      ↔ IsClean id scope metadata content retracted_at
unfolding thought_index_denial_reason
thought_index_denial_reason-none id scope metadata content none = ground arith
thought_index_denial_reason-none id scope metadata content (some t) = ground arith

or_chunk-none :
    (reason : Option Text) (chunk : Text)
    → (or_chunk reason chunk ≡ none)
      ↔ ((reason ≡ none) × (text_trips_eval_contamination chunk ≡ false))
or_chunk-none none chunk = ground arith
or_chunk-none (some r) chunk = ground arith

-- A chunk may be indexed exactly if it is not retracted, its parent is there and clean, and its own
-- text has no marker; then its context is not rejected either.
pub chunk_index_denial_reason-none :
    (id : ℕ) (scope : Text) (metadata : Value) (content : Text) (parent_retracted_at : Option ℕ)
    (chunk : Text) (chunk_retracted_at : Option ℕ)
    → ((chunk_index_denial_reason
            (some id)
            (some scope)
            (some metadata)
            (some content)
            parent_retracted_at
            chunk
            chunk_retracted_at
          ≡ none)
        ↔ ((chunk_retracted_at ≡ none)
            × IsClean id scope metadata content parent_retracted_at
            × (text_trips_eval_contamination chunk ≡ false)))
      × (IsClean id scope metadata content parent_retracted_at
          → text_trips_eval_contamination chunk ≡ false
          → contamination_rejection_reason id metadata content chunk ≡ none)
unfolding chunk_index_denial_reason contamination_rejection_reason
chunk_index_denial_reason-none id scope metadata content retracted chunk none =
    let parent = thought_index_denial_reason-none id scope metadata content retracted in
    let both =
      or_chunk-none (thought_index_denial_reason id scope metadata content retracted) chunk in
    (
      (λ h. (refl, parent.0 (both.0 h).0, (both.0 h).1), λ h. both.1 (parent.1 h.1, h.2)),
      λ clean plain. ground arith,
    )
chunk_index_denial_reason-none id scope metadata content retracted chunk (some t) =
    ((λ h. cc, λ h. cc), λ clean plain. ground arith)
