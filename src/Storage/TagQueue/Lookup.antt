-- ===== src/Storage/TagQueue/Lookup.antt =====
-- What the statements on `pending_tags` do to the job that is found under a thought.
use k_engram.Prelude.{
  ℕ, ◌+◌, Bool, false, ◌&&◌, not, List, [], ◌∷◌, ◌++◌, map, Option, none, some, ◌≡◌, refl, arith,
  ◌==◌, if◌then◌else◌, is_some, or_else, map_some, retain, any,
}
use k_engram.Storage.TagQueue.{PendingTagJob, is_job, bump}
use k_engram.Storage.TagQueue.Unique.{queued, UniqueJobs}

abbrev pub find_job : ℕ → List PendingTagJob → Option PendingTagJob
find_job k [] = none
find_job k (row ∷ rows) = if row.thought_id == k then some row else find_job k rows

abbrev pub held : (PendingTagJob → Bool) → Option PendingTagJob → Bool
held p none = false
held p (some row) = p row

pub queued-find_job :
    (k : ℕ) (rows : List PendingTagJob) → queued k rows ≡ is_some (find_job k rows)
queued-find_job k [] = refl
queued-find_job k (row ∷ rows) = ground (arith, queued-find_job k rows)

pub find_job-append :
    (k : ℕ) (rows : List PendingTagJob) (job : PendingTagJob)
    → find_job k (rows ++ job ∷ [])
      ≡ or_else (find_job k rows) (if job.thought_id == k then some job else none)
find_job-append k [] job = refl
find_job-append k (row ∷ rows) job = ground (arith, find_job-append k rows job)

pub find_job-retain_other :
    (k thought_id generation : ℕ) (rows : List PendingTagJob)
    → (k == thought_id) ≡ false
    → find_job k (retain (λ row. not (is_job thought_id generation row)) rows) ≡ find_job k rows
unfolding is_job
find_job-retain_other k thought_id generation [] h = refl
find_job-retain_other k thought_id generation (row ∷ rows) h =
    ground (arith, find_job-retain_other k thought_id generation rows h)

pub find_job-retain :
    (k generation : ℕ) (rows : List PendingTagJob)
    → UniqueJobs rows
    → find_job k (retain (λ row. not (is_job k generation row)) rows) ≡ (
        if held (λ row. row.tag_job_generation_id == generation) (find_job k rows)
        then none
        else find_job k rows)
unfolding is_job
find_job-retain k generation [] u = refl
find_job-retain k generation (row ∷ rows) u =
    ground (arith, find_job-retain k generation rows u.1, queued-find_job row.thought_id rows, u.0)

pub find_job-bump_other :
    (k thought_id generation : ℕ) (rows : List PendingTagJob)
    → (k == thought_id) ≡ false
    → find_job k (map (bump thought_id generation) rows) ≡ find_job k rows
unfolding bump is_job
find_job-bump_other k thought_id generation [] h = refl
find_job-bump_other k thought_id generation (row ∷ rows) h =
    ground (arith, find_job-bump_other k thought_id generation rows h)

abbrev pub add_attempt : PendingTagJob → PendingTagJob
add_attempt row = record row { attempts = row.attempts + 1 }

pub find_job-bump :
    (k generation : ℕ) (rows : List PendingTagJob)
    → find_job k (map (bump k generation) rows) ≡ (
        if held (λ row. row.tag_job_generation_id == generation) (find_job k rows)
        then map_some add_attempt (find_job k rows)
        else find_job k rows)
unfolding bump is_job
find_job-bump k generation [] = refl
find_job-bump k generation (row ∷ rows) = ground (arith, find_job-bump k generation rows)

none_elsewhere :
    (k generation : ℕ) (p : PendingTagJob → Bool) (rows : List PendingTagJob)
    → queued k rows ≡ false
    → any (λ row. is_job k generation row && p row) rows ≡ false
unfolding is_job
none_elsewhere k generation p [] h = refl
none_elsewhere k generation p (row ∷ rows) h = ground (arith, none_elsewhere k generation p rows)

-- A condition on one job of the table is one on the job that is found under its thought.
pub any_job :
    (k generation : ℕ) (p : PendingTagJob → Bool) (rows : List PendingTagJob)
    → UniqueJobs rows
    → any (λ row. is_job k generation row && p row) rows
      ≡ held (λ row. row.tag_job_generation_id == generation && p row) (find_job k rows)
unfolding is_job
any_job k generation p [] u = refl
any_job k generation p (row ∷ rows) u =
    ground
      (arith, any_job k generation p rows u.1, none_elsewhere row.thought_id generation p rows u.0)

none_named :
    (k generation : ℕ) (rows : List PendingTagJob)
    → queued k rows ≡ false
    → any (is_job k generation) rows ≡ false
unfolding is_job
none_named k generation [] h = refl
none_named k generation (row ∷ rows) h = ground (arith, none_named k generation rows)

pub any-is_job :
    (k generation : ℕ) (rows : List PendingTagJob)
    → UniqueJobs rows
    → any (is_job k generation) rows
      ≡ held (λ row. row.tag_job_generation_id == generation) (find_job k rows)
unfolding is_job
any-is_job k generation [] u = refl
any-is_job k generation (row ∷ rows) u =
    ground (arith, any-is_job k generation rows u.1, none_named row.thought_id generation rows u.0)
