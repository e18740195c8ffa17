-- ===== src/Storage/TagQueue/Tests.antt =====
-- A queue of two thoughts.
use k_engram.Prelude.{false, List, [], ◌∷◌, some, ◌≡◌, refl, ℕ, true}
use k_engram.Text.{codes}
use k_engram.Storage.TagQueue.{
  PendingTagJob, enqueue_tag_job, is_job, complete_tag_job, increment_tag_job_attempts, bump,
}
use k_engram.Storage.TagQueue.Unique.{UniqueJobs}
use k_engram.Storage.TagQueue.Refined.{
  Statement, enqueue, complete, increment, run, specified_run, run_refines,
}
use k_engram.Storage.TagQueue.Lookup.{find_job}

abbrev first : PendingTagJob
first = record {
  thought_id = 1;
  tagger_model_id = codes "m";
  tag_job_generation_id = 11;
  attempts = 0;
}

abbrev second : PendingTagJob
second = record {
  thought_id = 2;
  tagger_model_id = codes "m";
  tag_job_generation_id = 12;
  attempts = 3;
}

abbrev queue : List PendingTagJob
queue = first ∷ second ∷ []

enqueued_again : enqueue_tag_job queue 2 (codes "m") 13 ≡ (queue, false)
unfolding enqueue_tag_job
enqueued_again = refl

stale_completion : complete_tag_job queue 2 99 ≡ (queue, false)
unfolding complete_tag_job is_job
stale_completion = refl

abbrev history : List Statement
history =
    complete 1 11
    ∷ enqueue 1 (codes "m") 14
    ∷ increment 2 12
    ∷ complete 1 11
    ∷ enqueue 2 (codes "m") 15
    ∷ []

history_answers :
    (run queue history).1 ≡ some true ∷ some true ∷ some true ∷ some false ∷ some false ∷ []
unfolding enqueue_tag_job complete_tag_job increment_tag_job_attempts is_job bump
history_answers = refl

run_refines_example :
    UniqueJobs (run queue history).0
    × ((x : ℕ)
        → find_job x (run queue history).0 ≡ (specified_run (λ y. find_job y queue) history).0 x)
    × ((run queue history).1 ≡ (specified_run (λ y. find_job y queue) history).1)
run_refines_example =
    run_refines queue history (λ y. find_job y queue) (refl, (refl, tt)) (λ x. refl)
