-- ===== src/Storage/TagQueue/Unique.antt =====
-- The primary key of `pending_tags`: a thought is queued at most once.
use k_engram.Prelude.{
  ℕ, Bool, true, false, ◌&&◌, not, List, [], ◌∷◌, ◌++◌, map, some, ◌≡◌, refl, ◌∙◌, ap, subst, ◌↔◌,
  inl, inr, arith, ◌==◌, if◌then◌else◌, Bool-cases, length, retain, any, any-append, In, In-retain,
  In-of_retain, some_injective,
}
use k_engram.Text.{Text}
use k_engram.Storage.TagQueue.{
  PendingTagJob, enqueue_tag_job, is_job, complete_tag_job, bump, increment_tag_job_attempts,
}

abbrev pub queued : ℕ → List PendingTagJob → Bool
queued thought_id rows = any (λ row. row.thought_id == thought_id) rows

abbrev pub UniqueJobs : List PendingTagJob → Type 0
UniqueJobs [] = Unit
UniqueJobs (row ∷ rows) = (queued row.thought_id rows ≡ false) × UniqueJobs rows

UniqueJobs-concat :
    (rows : List PendingTagJob) (job : PendingTagJob)
    → UniqueJobs rows
    → queued job.thought_id rows ≡ false
    → UniqueJobs (rows ++ job ∷ [])
UniqueJobs-concat [] job u h = (refl, tt)
UniqueJobs-concat (row ∷ rows) job u h = (
  ground (arith, u.0, any-append (λ r. r.thought_id == row.thought_id) rows (job ∷ [])),
  UniqueJobs-concat rows job u.1 (ground arith),
)

queued-retain :
    (keep : PendingTagJob → Bool) (thought_id : ℕ) (rows : List PendingTagJob)
    → queued thought_id rows ≡ false
    → queued thought_id (retain keep rows) ≡ false
queued-retain keep thought_id [] h = refl
queued-retain keep thought_id (row ∷ rows) h = ground (arith, queued-retain keep thought_id rows)

UniqueJobs-retain :
    (keep : PendingTagJob → Bool) (rows : List PendingTagJob)
    → UniqueJobs rows
    → UniqueJobs (retain keep rows)
UniqueJobs-retain keep [] u = tt
UniqueJobs-retain keep (row ∷ rows) u = elim (Bool-cases (keep row)) [
  | inl e ↦ rw e (queued-retain keep row.thought_id rows u.0, UniqueJobs-retain keep rows u.1)
  | inr e ↦ rw e (UniqueJobs-retain keep rows u.1)
]

bump_thought_id :
    (thought_id generation : ℕ) (row : PendingTagJob)
    → (bump thought_id generation row).thought_id ≡ row.thought_id
unfolding bump
bump_thought_id thought_id generation row = elim (Bool-cases (is_job thought_id generation row)) [
  | inl e ↦ rw e refl
  | inr e ↦ rw e refl
]

queued-bump :
    (k thought_id generation : ℕ) (rows : List PendingTagJob)
    → queued k (map (bump thought_id generation) rows) ≡ queued k rows
queued-bump k thought_id generation [] = refl
queued-bump k thought_id generation (row ∷ rows) =
    ground
      (arith, bump_thought_id thought_id generation row, queued-bump k thought_id generation rows)

UniqueJobs-bump :
    (thought_id generation : ℕ) (rows : List PendingTagJob)
    → UniqueJobs rows
    → UniqueJobs (map (bump thought_id generation) rows)
UniqueJobs-bump thought_id generation [] u = tt
UniqueJobs-bump thought_id generation (row ∷ rows) u = (
  queued-bump (bump thought_id generation row).thought_id thought_id generation rows
      ∙ ap (λ k. queued k rows) (bump_thought_id thought_id generation row)
      ∙ u.0,
  UniqueJobs-bump thought_id generation rows u.1,
)

-- Every statement on the queue keeps the primary key.
pub statements-UniqueJobs :
    (rows : List PendingTagJob) (thought_id generation : ℕ) (model : Text)
    → UniqueJobs rows
    → UniqueJobs (enqueue_tag_job rows thought_id model generation).0
      × UniqueJobs (complete_tag_job rows thought_id generation).0
      × ((after : List PendingTagJob) (b : Bool)
          → increment_tag_job_attempts rows thought_id generation ≡ some (after, b)
          → UniqueJobs after)
unfolding enqueue_tag_job complete_tag_job increment_tag_job_attempts
statements-UniqueJobs rows thought_id generation model u = (
  elim (Bool-cases (queued thought_id rows)) [
    | inl e ↦ rw e u
    | inr e ↦ rw e (
        UniqueJobs-concat rows
          (record {
            thought_id = thought_id;
            tagger_model_id = model;
            tag_job_generation_id = generation;
            attempts = 0;
          })
          u e)
  ],
  UniqueJobs-retain (λ row. not (is_job thought_id generation row)) rows u,
  λ after b e.
      elim (Bool-cases
        (any (λ row. is_job thought_id generation row && row.attempts == 2147483647) rows)) [
          | inl over ↦ absurd (cc (rw over at e))
          | inr fits ↦
              subst UniqueJobs (ap (λ p. p.0) (some_injective (rw fits at e)))
                (UniqueJobs-bump thought_id generation rows u)
        ],
)

-- An enqueue puts the job in last place unless the thought is queued, and then changes nothing; in
-- both cases the thought is queued afterwards.
pub enqueue_tag_job_lem :
    (rows : List PendingTagJob) (thought_id generation : ℕ) (model : Text)
    → ((enqueue_tag_job rows thought_id model generation).1 ≡ not (queued thought_id rows))
      × (queued thought_id (enqueue_tag_job rows thought_id model generation).0 ≡ true)
      × (enqueue_tag_job
            (enqueue_tag_job rows thought_id model generation).0
            thought_id
            model
            generation
          ≡ ((enqueue_tag_job rows thought_id model generation).0, false))
unfolding enqueue_tag_job
enqueue_tag_job_lem rows thought_id generation model = elim (Bool-cases (queued thought_id rows)) [
  | inl e ↦ rw (e, e) (refl, refl, refl)
  | inr e ↦
      let job : PendingTagJob = record {
        thought_id = thought_id;
        tagger_model_id = model;
        tag_job_generation_id = generation;
        attempts = 0;
      } in
      let there : queued thought_id (rows ++ job ∷ []) ≡ true =
        any-append (λ r. r.thought_id == thought_id) rows (job ∷ []) ∙ ground arith in
      rw (e, there) (refl, refl, refl)
]

pub no_other_job :
    (thought_id generation : ℕ) (rows : List PendingTagJob)
    → queued thought_id rows ≡ false
    → length (retain (is_job thought_id generation) rows) ≡ 0
unfolding is_job
no_other_job thought_id generation [] h = refl
no_other_job thought_id generation (row ∷ rows) h =
    ground (arith, no_other_job thought_id generation rows)

pub one_job :
    (thought_id generation : ℕ) (rows : List PendingTagJob)
    → UniqueJobs rows
    → length (retain (is_job thought_id generation) rows)
      ≡ (if any (is_job thought_id generation) rows then 1 else 0)
unfolding is_job
one_job thought_id generation [] u = refl
one_job thought_id generation (row ∷ rows) u =
    ground (
      arith,
      one_job thought_id generation rows u.1,
      no_other_job row.thought_id generation rows u.0,
    )

-- On a queue with its primary key, a completion removes the job of that thought and generation and
-- no other, and tells whether there was one: a job enqueued anew, under another generation, is not
-- removed by the completion of the old one.
pub complete_tag_job_lem :
    (rows : List PendingTagJob) (thought_id generation : ℕ)
    → UniqueJobs rows
    → ((complete_tag_job rows thought_id generation).1 ≡ any (is_job thought_id generation) rows)
      × ((row : PendingTagJob)
          → In row (complete_tag_job rows thought_id generation).0
            ↔ (In row rows × (is_job thought_id generation row ≡ false)))
unfolding complete_tag_job
complete_tag_job_lem rows thought_id generation u = (
  ground (arith, one_job thought_id generation rows u),
  λ row. (
    λ m.
        let (there, h) = In-retain (λ r. not (is_job thought_id generation r)) row rows m in
        (there, ground arith),
    λ h. In-of_retain (λ r. not (is_job thought_id generation r)) row rows h.0 (ap not h.1),
  ),
)
