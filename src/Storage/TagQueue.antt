-- ===== src/Storage/TagQueue.antt =====
-- The table `pending_tags` of crates/kengram-storage/src/lib.rs, its rows in the order of
-- `enqueued_at`. A UUID is its 128-bit value.
pub mod Unique
pub mod Lookup
pub mod Refined
pub mod Tests
use k_engram.Prelude.{
  ℕ, ◌+◌, ◌-◌, ◌^◌, Bool, true, false, ◌&&◌, not, List, [], ◌∷◌, ◌++◌, map, Option, none, some,
  ◌==◌, if◌then◌else◌, length, retain, any, take,
}
use k_engram.Text.{Text}

pub record PendingTagJob : Type 0 where
  pub thought_id : ℕ
  pub tagger_model_id : Text
  pub tag_job_generation_id : ℕ
  pub attempts : ℕ

-- The generation is the column's default, a fresh UUID, which the database draws.
unfoldable pub enqueue_tag_job : List PendingTagJob → ℕ → Text → ℕ → List PendingTagJob × Bool
enqueue_tag_job rows thought_id tagger_model_id generation =
    if any (λ row. row.thought_id == thought_id) rows then (rows, false) else (
      rows
          ++ record {
            thought_id = thought_id;
            tagger_model_id = tagger_model_id;
            tag_job_generation_id = generation;
            attempts = 0;
          }
            ∷ [],
      true,
    )

unfoldable pub fetch_pending_tag_jobs : List PendingTagJob → ℕ → List PendingTagJob
fetch_pending_tag_jobs rows batch_size = take batch_size rows

-- The condition of both statements on one job.
unfoldable pub is_job : ℕ → ℕ → PendingTagJob → Bool
is_job thought_id generation row =
    row.thought_id == thought_id && row.tag_job_generation_id == generation

unfoldable pub complete_tag_job : List PendingTagJob → ℕ → ℕ → List PendingTagJob × Bool
complete_tag_job rows thought_id generation = (
  retain (λ row. not (is_job thought_id generation row)) rows,
  length (retain (is_job thought_id generation) rows) == 1,
)

abbrev pub max_i32 : ℕ
max_i32 = 2147483647

unfoldable pub bump : ℕ → ℕ → PendingTagJob → PendingTagJob
bump thought_id generation row =
    if is_job thought_id generation row then record row { attempts = row.attempts + 1 } else row

-- None is the database's error: the column is an `integer`, whose sum must not overflow.
unfoldable pub increment_tag_job_attempts :
    List PendingTagJob → ℕ → ℕ → Option (List PendingTagJob × Bool)
increment_tag_job_attempts rows thought_id generation =
    if any (λ row. is_job thought_id generation row && row.attempts == max_i32) rows
    then none
    else some (
      map (bump thought_id generation) rows,
      length (retain (is_job thought_id generation) rows) == 1,
    )
