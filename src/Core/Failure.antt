-- ===== src/Core/Failure.antt =====
-- The failures of the embedding and tagging backends: `EmbedderError` of
-- crates/kengram-core/src/embedder.rs, `TaggerError` of crates/kengram-core/src/tagger.rs, and the
-- bridge between them in crates/kengram-tagger-deterministic/src/lib.rs.
use k_engram.Prelude.{ℕ, Bool, true, false, ◌&&◌, ◌≡◌, refl, leb}
use k_engram.Text.{Text, codes}

pub data EmbedderError : Type 0 where
  timeout : ℕ → EmbedderError
  unreachable : Text → EmbedderError
  malformed_response : Text → EmbedderError
  dimension_mismatch : ℕ → ℕ → EmbedderError
  backend : ℕ → Text → EmbedderError
  empty_batch : EmbedderError

-- `500..=599`.
abbrev is_server_status : ℕ → Bool
is_server_status status = leb 500 status && leb status 599

-- `EmbedderError::is_transient`.
unfoldable pub embedder_is_transient : EmbedderError → Bool
embedder_is_transient (timeout seconds) = true
embedder_is_transient (unreachable reason) = true
embedder_is_transient (backend status message) = is_server_status status
embedder_is_transient _ = false

pub data TaggerError : Type 0 where
  t_unreachable : Text → TaggerError
  t_timeout : ℕ → TaggerError
  t_malformed_response : Text → TaggerError
  t_misconfigured : Text → TaggerError
  t_backend : ℕ → Text → TaggerError

-- `TaggerError::is_transient`.
unfoldable pub tagger_is_transient : TaggerError → Bool
tagger_is_transient (t_unreachable reason) = true
tagger_is_transient (t_timeout seconds) = true
tagger_is_transient (t_backend status body) = is_server_status status
tagger_is_transient _ = false

-- `embedder_to_tagger_error`; `mismatch` is the formatted message.
module _ (mismatch : ℕ → ℕ → Text) where
  unfoldable pub embedder_to_tagger_error : EmbedderError → TaggerError
  embedder_to_tagger_error (timeout seconds) = t_timeout seconds
  embedder_to_tagger_error (unreachable s) = t_unreachable s
  embedder_to_tagger_error (backend status message) = t_backend status message
  embedder_to_tagger_error (malformed_response s) = t_malformed_response s
  embedder_to_tagger_error (dimension_mismatch expected got) =
      t_misconfigured (mismatch expected got)
  embedder_to_tagger_error empty_batch =
      t_misconfigured (codes "deterministic tagger sent empty batch to embedder (internal bug)")

  -- The bridge keeps the distinction on which the drainer decides between a retry and a drop.
  pub embedder_to_tagger_error-is_transient :
      (e : EmbedderError)
      → tagger_is_transient (embedder_to_tagger_error e) ≡ embedder_is_transient e
  unfolding tagger_is_transient embedder_is_transient embedder_to_tagger_error
  embedder_to_tagger_error-is_transient (timeout seconds) = refl
  embedder_to_tagger_error-is_transient (unreachable s) = refl
  embedder_to_tagger_error-is_transient (backend status message) = refl
  embedder_to_tagger_error-is_transient _ = refl
