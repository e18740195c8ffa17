-- ===== src/Tagger/Kind.antt =====
-- crates/kengram-tagger-deterministic/src/kind.rs, and `cosine_similarity` of lib.rs: a thought has
-- the kind of the prototype that it is most similar to.
pub mod Best
use k_engram.Prelude.{
  ℕ, Bool, true, false, ◌||◌, List, [], ◌∷◌, Option, none, some, if◌then◌else◌, Result, ok, err,
  and_then, map_err, length, ◌==◌, not,
}
use k_engram.Text.{Text, codes}
use k_engram.Float.{Float, le?}
use k_engram.Core.Failure.{
  EmbedderError, TaggerError, t_malformed_response, embedder_to_tagger_error,
}
use k_engram.Core.Tags.{TagKind}

module _ {A B : Type 0} where
  abbrev pub zip : List A → List B → List (A × B)
  zip [] bs = []
  zip (a ∷ as') [] = []
  zip (a ∷ as') (b ∷ bs) = (a, b) ∷ zip as' bs

module _ (fl : Float) where
  open fl use {F, of_ℕ, add, mul, div, sqrt, lt, eqb}

  unfoldable pub dot : List F → List F → F → F
  dot [] b sum = sum
  dot (x ∷ a) [] sum = sum
  dot (x ∷ a) (y ∷ b) sum = dot a b (add sum (mul x y))

  -- The lengths agree, which a debug build asserts.
  unfoldable pub cosine_similarity : List F → List F → F
  cosine_similarity a b =
      let na = sqrt (dot a a (of_ℕ 0)) in
      let nb = sqrt (dot b b (of_ℕ 0)) in
      if eqb na (of_ℕ 0) || eqb nb (of_ℕ 0) then of_ℕ 0 else div (dot a b (of_ℕ 0)) (mul na nb)

  -- `Embedder::embed`.
  abbrev pub Embed : Type 0
  Embed = List Text → Result EmbedderError (List (List F))

  abbrev pub Entry : Type 0
  Entry = TagKind × List F

  abbrev pub better : Option (TagKind × F) → TagKind → F → Option (TagKind × F)
  better none kind score = some (kind, score)
  better (some (k, b)) kind score = if lt b score then some (kind, score) else some (k, b)

  unfoldable pub best_kind : List F → Option (TagKind × F) → List Entry → Option (TagKind × F)
  best_kind content best [] = best
  best_kind content best ((kind, prototype) ∷ entries) =
      best_kind content (better best kind (cosine_similarity content prototype)) entries

  abbrev pub confident : F → Option (TagKind × F) → Option TagKind
  confident threshold none = none
  confident threshold (some (k, s)) = if le? fl threshold s then some k else none

  module _ (mismatch : ℕ → ℕ → Text) (embed : Embed) where
    abbrev pub first_vector : Text → List (List F) → Result TaggerError (List F)
    first_vector message [] = err (t_malformed_response message)
    first_vector message (v ∷ vectors) = ok v

    -- The vector of a text, or the error with a message for an empty answer.
    abbrev pub embed_one : Text → Text → Result TaggerError (List F)
    embed_one message content =
        and_then (map_err (embedder_to_tagger_error mismatch) (embed (content ∷ [])))
          (first_vector message)

    unfoldable pub classify_kind : Text → List Entry → F → Result TaggerError (Option TagKind)
    classify_kind content prototypes threshold =
        and_then (embed_one (codes "kind classify: empty embed result") content)
          (λ v. ok (confident threshold (best_kind v none prototypes)))

    -- `KindPrototypes::new`; `wrong_count` is the formatted message.
    unfoldable pub new_kind_prototypes :
        (ℕ → ℕ → Text) → List TagKind → List Text → Result TaggerError (List Entry)
    new_kind_prototypes wrong_count kinds texts =
        and_then (map_err (embedder_to_tagger_error mismatch) (embed texts)) (λ vectors.
          if not (length vectors == length kinds)
          then err (t_malformed_response (wrong_count (length kinds) (length vectors)))
          else ok (zip kinds vectors))
