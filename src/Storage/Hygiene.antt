-- ===== src/Storage/Hygiene.antt =====
-- The hygiene fences of crates/kengram-storage/src/lib.rs: what may not enter the retrieval index.
pub mod Marker
pub mod Fences
pub mod Tests
use k_engram.Prelude.{
  ℕ, Bool, true, false, ◌&&◌, ◌||◌, List, [], ◌∷◌, Option, none, some, ◌==◌, ltb, if◌then◌else◌,
  any, is_some,
}
use k_engram.Text.{
  Text, codes, byte_len, contains, starts_with, is_ascii_digit, to_ascii_lowercase,
  to_ascii_uppercase,
}
use k_engram.Core.Json.{Value, get, str_of}

-- `EVAL_CONTAMINATION_KNOWN_IDS`.
abbrev pub known_ids : List ℕ
known_ids =
    0x43ec4976d33b4292bbf6ce141f6418dd ∷ 0x5853f4c5afca433b950640c015646c23
    ∷ 0xa58e47fae9334f759af83f7873ab9f58 ∷ []

-- One window of six bytes. A byte of a character outside ASCII equals none of those tested, so
-- windows of characters find the same.
unfoldable pub is_marker : Text → Bool
is_marker (k ∷ g ∷ r ∷ a ∷ b ∷ c ∷ rest) =
    k == b'K' && g == b'G' && r == b'R' && is_ascii_digit a && is_ascii_digit b && is_ascii_digit c
is_marker _ = false

-- `bytes.windows(6).any(…)`.
unfoldable pub any_marker : Text → Bool
any_marker [] = false
any_marker (c ∷ s) = is_marker (c ∷ s) || any_marker s

unfoldable pub text_trips_eval_contamination : Text → Bool
text_trips_eval_contamination text =
    if ltb (byte_len (to_ascii_uppercase text)) 6
    then false
    else any_marker (to_ascii_uppercase text)

abbrev eval_needles : List Text
eval_needles =
    codes "kengram-recall-97"
    ∷ codes "kengram-gold"
    ∷ codes "gold100"
    ∷ codes "gold-100"
    ∷ codes "miss-analysis"
    ∷ codes "label-repair"
    ∷ codes "adjudication"
    ∷ codes "answer-key"
    ∷ codes "retrieval-baseline"
    ∷ []

abbrev names_eval : Option Text → Bool
names_eval none = false
names_eval (some source_file) =
    any (λ needle. contains needle (to_ascii_lowercase source_file)) eval_needles

unfoldable pub source_file_trips_eval_contamination : Value → Bool
source_file_trips_eval_contamination metadata =
    names_eval (str_of (get metadata (codes "source_file")))

unfoldable pub known_eval_thought_id : ℕ → Bool
known_eval_thought_id id = any (λ known. known == id) known_ids

unfoldable pub contamination_rejection_reason : ℕ → Value → Text → Text → Option Text
contamination_rejection_reason source_thought_id parent_metadata parent_content chunk_content =
    if known_eval_thought_id source_thought_id
    then some (codes "known_eval_thought_id")
    else if source_file_trips_eval_contamination parent_metadata
    then some (codes "eval_source_file")
    else if text_trips_eval_contamination parent_content
    then some (codes "parent_eval_marker")
    else if text_trips_eval_contamination chunk_content
    then some (codes "raw_chunk_eval_marker")
    else none

-- A time of retraction is a number.
unfoldable pub thought_index_denial_reason : ℕ → Text → Value → Text → Option ℕ → Option Text
thought_index_denial_reason thought_id scope metadata content retracted_at =
    if is_some retracted_at
    then some (codes "thought_retracted")
    else if starts_with (codes "archive.") scope
    then some (codes "archive_scope")
    else if known_eval_thought_id thought_id
    then some (codes "known_eval_thought_id")
    else if source_file_trips_eval_contamination metadata
    then some (codes "eval_source_file")
    else if text_trips_eval_contamination content
    then some (codes "thought_eval_marker")
    else none

-- `or_else` with the chunk's own text.
abbrev or_chunk : Option Text → Text → Option Text
or_chunk (some reason) chunk_content = some reason
or_chunk none chunk_content =
    if text_trips_eval_contamination chunk_content
    then some (codes "raw_chunk_eval_marker")
    else none

unfoldable pub chunk_index_denial_reason :
    Option ℕ → Option Text → Option Value → Option Text → Option ℕ → Text → Option ℕ → Option Text
chunk_index_denial_reason (some id) (some scope) (some metadata) (some content) parent_retracted_at
      chunk_content chunk_retracted_at =
    if is_some chunk_retracted_at
    then some (codes "chunk_retracted")
    else or_chunk (thought_index_denial_reason id scope metadata content parent_retracted_at)
        chunk_content
chunk_index_denial_reason _ _ _ _ parent_retracted_at chunk_content chunk_retracted_at =
    some (codes "missing_parent_thought")
