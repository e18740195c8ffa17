-- ===== src/Mcp/Drain/Report.antt =====
-- The report and the queue after `drain_pending_tags` of crates/kengram-mcp/src/drain.rs.
use k_engram.Prelude.{
  ℕ, ◌+◌, min, Bool, true, false, not, ◌||◌, List, [], ◌∷◌, ◌++◌, map, Option, none, some, ◌≡◌,
  refl, sym, ◌∙◌, ap, subst, inl, inr, arith, Bool-cases, leb, length, length-take, some_injective,
  Result, ok, err, length-map,
}
use k_engram.Text.{Text}
use k_engram.Unicode.{Unicode}
use k_engram.Float.{Float}
use k_engram.Core.Failure.{TaggerError, tagger_is_transient}
use k_engram.Core.Tags.{ScopeVocab}
use k_engram.Storage.TagQueue.{
  PendingTagJob, fetch_pending_tag_jobs, complete_tag_job, increment_tag_job_attempts,
}
use k_engram.Storage.TagQueue.Unique.{UniqueJobs, statements-UniqueJobs}
use k_engram.Mcp.Link.{LinkError}
use k_engram.Mcp.Drain.{
  Emitted, TagOutput, ThoughtRow, World, Statements, TagJobOutcome, completed, transient, permanent,
  DrainTagsReport, count_outcome, Replacement, drop_job, keep_job, bumped, max_tag_attempts,
  attempts_after, carried_out, finish, after_tagger, with_vocab, with_thought, vocab_answer,
  fetch_thought, process_tag_job, drain_jobs, drain_pending_tags, replacement_of,
  apply_tagger_relations, update_thought_tags,
}
use k_engram.Mcp.Finalize.{finalize_tags}

-- The outcomes that a report has counted.
abbrev counted : DrainTagsReport → ℕ
counted r = r.completed_count + r.failed_transient + r.failed_permanent

counted-count_outcome :
    (r : DrainTagsReport) (o : TagJobOutcome)
    → (counted (count_outcome r o) ≡ counted r + 1) × ((count_outcome r o).processed ≡ r.processed)
unfolding count_outcome
counted-count_outcome r completed = omega arith
counted-count_outcome r transient = omega arith
counted-count_outcome r permanent = omega arith

drop_job-UniqueJobs :
    (s : Statements) (w : World) (job : PendingTagJob)
    → UniqueJobs w.pending
    → UniqueJobs (drop_job s w job).pending
unfolding drop_job
drop_job-UniqueJobs s w job h = elim (Bool-cases s.completed) [
  | inl e ↦ rw e (statements-UniqueJobs w.pending job.thought_id job.tag_job_generation_id [] h).1
  | inr e ↦ rw e h
]

bumped-UniqueJobs :
    (w : World) (o : Option (List PendingTagJob × Bool))
    → UniqueJobs w.pending
    → ((after : List PendingTagJob) (b : Bool) → o ≡ some (after, b) → UniqueJobs after)
    → UniqueJobs (bumped w o).pending
bumped-UniqueJobs w none h k = h
bumped-UniqueJobs w (some (rows, b)) h k = k rows b refl

keep_job-UniqueJobs :
    (s : Statements) (w : World) (job : PendingTagJob)
    → UniqueJobs w.pending
    → UniqueJobs (keep_job s w job).pending
unfolding keep_job
keep_job-UniqueJobs s w job h = elim (Bool-cases s.incremented) [
  | inl e ↦ rw e (
      bumped-UniqueJobs w
        (increment_tag_job_attempts w.pending job.thought_id job.tag_job_generation_id) h
        (statements-UniqueJobs w.pending job.thought_id job.tag_job_generation_id [] h).2)
  | inr e ↦ rw e h
]

module _ (print_uuid : ℕ → Text) (print : Emitted → Text) (before : Text → Text → Bool)
    (sha256 : List Emitted → Text) (fl : Float) (u : Unicode)
    (tag : Text → Option ScopeVocab → Result TaggerError TagOutput) (model_id : Text) (version : ℕ)
    (vocab_limit : Option ℕ) (known_scopes : List Text) where
  -- The queue after one job, by the job's outcome.
  abbrev pub queue_after : Statements → World → PendingTagJob → TagJobOutcome → List PendingTagJob
  queue_after s w job completed = (drop_job s w job).pending
  queue_after s w job transient = (keep_job s w job).pending
  queue_after s w job permanent = (drop_job s w job).pending

  abbrev pub Settled : Statements → World → PendingTagJob → World × TagJobOutcome → Type 0
  Settled s w job r = r.0.pending ≡ queue_after s w job r.1

  drop_job-pending :
      (s : Statements) (v w : World) (job : PendingTagJob)
      → v.pending ≡ w.pending
      → (drop_job s v job).pending ≡ (drop_job s w job).pending
  unfolding drop_job
  drop_job-pending s v w job e = elim (Bool-cases s.completed) [
    | inl c ↦
        rw c (ap (λ rows. (complete_tag_job rows job.thought_id job.tag_job_generation_id).0) e)
    | inr c ↦ rw c e
  ]

  bumped-pending :
      (v w : World) (o : Option (List PendingTagJob × Bool))
      → v.pending ≡ w.pending
      → (bumped v o).pending ≡ (bumped w o).pending
  bumped-pending v w none e = e
  bumped-pending v w (some (rows, b)) e = refl

  keep_job-pending :
      (s : Statements) (v w : World) (job : PendingTagJob)
      → v.pending ≡ w.pending
      → (keep_job s v job).pending ≡ (keep_job s w job).pending
  unfolding keep_job
  keep_job-pending s v w job e = elim (Bool-cases s.incremented) [
    | inl i ↦ rw i (
        bumped-pending v w
          (increment_tag_job_attempts v.pending job.thought_id job.tag_job_generation_id) e
        ∙ ap
            (λ rows.
              (bumped w
                (increment_tag_job_attempts rows job.thought_id job.tag_job_generation_id)).pending)
            e)
    | inr i ↦ rw i e
  ]

  finish-Settled :
      (s : Statements) (w : World) (job : PendingTagJob) (v : World) (written : Bool)
      (r : Result LinkError Replacement)
      → v.pending ≡ w.pending
      → Settled s w job (
          finish print_uuid print before sha256 fl u tag model_id version vocab_limit known_scopes s
            job
            (carried_out print_uuid print before sha256 written v r))
  finish-Settled s w job v written (err x) e = keep_job-pending s v w job e
  finish-Settled s w job v true (ok request) e =
      drop_job-pending s (record v { replacements = v.replacements ++ request ∷ [] }) w job e
  finish-Settled s w job v false (ok request) e = keep_job-pending s v w job e

  after_tagger-Settled :
      (s : Statements) (w : World) (job : PendingTagJob) (t : ThoughtRow)
      (vocab : Option ScopeVocab) (answer : Result TaggerError TagOutput)
      → Settled s w job (
          after_tagger print_uuid print before sha256 fl u tag model_id version vocab_limit
            known_scopes s w job t vocab answer)
  unfolding after_tagger apply_tagger_relations drop_job keep_job
  after_tagger-Settled s w job t vocab (ok output) = elim (Bool-cases s.tags_written) [
    | inl e ↦
        let tags = finalize_tags fl u output.tags t.metadata t.scope vocab known_scopes in
        rw e (
          finish-Settled s w job
            (record w {
              thoughts = update_thought_tags w.thoughts job.thought_id tags model_id version;
            })
            s.relations_written
            (replacement_of print_uuid print before sha256 job.thought_id job.tag_job_generation_id
              output.relations)
            refl)
    | inr e ↦ rw e refl
  ]
  after_tagger-Settled s w job t vocab (err x) =
      elim (Bool-cases (not (tagger_is_transient x) || leb max_tag_attempts (attempts_after job))) [
        | inl e ↦ rw e refl
        | inr e ↦ rw e refl
      ]

  with_vocab-Settled :
      (s : Statements) (w : World) (job : PendingTagJob) (t : ThoughtRow)
      (vocab : Option (Option ScopeVocab))
      → Settled s w job (
          with_vocab print_uuid print before sha256 fl u tag model_id version vocab_limit
            known_scopes s w job t vocab)
  with_vocab-Settled s w job t none = refl
  with_vocab-Settled s w job t (some vocab) =
      after_tagger-Settled s w job t vocab (tag t.content vocab)

  with_thought-Settled :
      (s : Statements) (w : World) (job : PendingTagJob) (found : Option ThoughtRow)
      → Settled s w job (
          with_thought print_uuid print before sha256 fl u tag model_id version vocab_limit
            known_scopes s w job found)
  with_thought-Settled s w job none = refl
  with_thought-Settled s w job (some t) = with_vocab-Settled s w job t (
      vocab_answer print_uuid print before sha256 fl u tag model_id version vocab_limit known_scopes
        vocab_limit s.vocab)

  -- Whatever fails on the way, the queue changes by one statement only, which the outcome names: a
  -- completed and a permanently failed job is dropped, a transiently failed one gets an attempt more.
  pub process_tag_job-Settled :
      (s : Statements) (w : World) (job : PendingTagJob)
      → Settled s w job (
          process_tag_job print_uuid print before sha256 fl u tag model_id version vocab_limit
            known_scopes s w job)
  unfolding process_tag_job drop_job keep_job after_tagger apply_tagger_relations
  process_tag_job-Settled s w job = elim (Bool-cases s.fetched) [
    | inl e ↦ rw e (with_thought-Settled s w job (fetch_thought w.thoughts job.thought_id))
    | inr e ↦ rw e refl
  ]

  queue_after-UniqueJobs :
      (s : Statements) (w : World) (job : PendingTagJob) (o : TagJobOutcome)
      → UniqueJobs w.pending
      → UniqueJobs (queue_after s w job o)
  queue_after-UniqueJobs s w job completed h = drop_job-UniqueJobs s w job h
  queue_after-UniqueJobs s w job transient h = keep_job-UniqueJobs s w job h
  queue_after-UniqueJobs s w job permanent h = drop_job-UniqueJobs s w job h

  drain_jobs_lem :
      (w : World) (r : DrainTagsReport) (jobs : List (PendingTagJob × Statements))
      → UniqueJobs w.pending
      → UniqueJobs
          (drain_jobs print_uuid print before sha256 fl u tag model_id version vocab_limit
            known_scopes w r jobs).0.pending
        × (counted
              (drain_jobs print_uuid print before sha256 fl u tag model_id version vocab_limit
                known_scopes w r jobs).1
            ≡ counted r + length jobs)
        × ((drain_jobs print_uuid print before sha256 fl u tag model_id version vocab_limit
              known_scopes w r jobs).1.processed
            ≡ r.processed)
  unfolding drain_jobs
  drain_jobs_lem w r [] h = (h, omega arith, refl)
  drain_jobs_lem w r ((job, s) ∷ jobs) h =
      let step =
        process_tag_job print_uuid print before sha256 fl u tag model_id version vocab_limit
          known_scopes s w job in
      let counts = counted-count_outcome r step.1 in
      let rest = drain_jobs_lem step.0 (count_outcome r step.1) jobs (
        subst UniqueJobs (sym (process_tag_job-Settled s w job))
          (queue_after-UniqueJobs s w job step.1 h)) in
      (rest.0, rest.1 ∙ omega (arith, counts.0), rest.2 ∙ counts.1)

  -- A drain keeps the queue's primary key, reports as many jobs as the queue has up to the size of
  -- the batch, and counts each of them in exactly one of the three outcomes, whatever fails.
  pub drain_pending_tags_lem :
      (w w' : World) (batch_size : ℕ) (statements : PendingTagJob → Statements)
      (report : DrainTagsReport)
      → UniqueJobs w.pending
      → drain_pending_tags print_uuid print before sha256 fl u tag model_id version vocab_limit
          known_scopes w true batch_size statements
        ≡ some (w', report)
      → UniqueJobs w'.pending
        × (report.processed ≡ min batch_size (length w.pending))
        × (report.completed_count + report.failed_transient + report.failed_permanent
            ≡ report.processed)
  unfolding drain_pending_tags fetch_pending_tag_jobs
  drain_pending_tags_lem w w' batch_size statements report h e =
      let jobs = fetch_pending_tag_jobs w.pending batch_size in
      let start : DrainTagsReport = record {
        processed = length jobs;
        completed_count = 0;
        failed_transient = 0;
        failed_permanent = 0;
      } in
      let pair : PendingTagJob → PendingTagJob × Statements = λ job. (job, statements job) in
      let paired : List (PendingTagJob × Statements) = map pair jobs in
      let run = drain_jobs_lem w start paired h in
      let done = some_injective e in
      (
        subst (λ v. UniqueJobs v.pending) (ap (λ p. p.0) done) run.0,
        sym (ap (λ p. p.1.processed) done) ∙ run.2 ∙ length-take batch_size w.pending,
        sym (ap (λ p. counted p.1) done)
            ∙ run.1
            ∙ omega (arith, length-map pair jobs, run.2)
            ∙ ap (λ p. p.1.processed) done,
      )
