-- ===== src/Mcp/Drain/Retry.antt =====
-- When a tag job is done, retried or dropped, in `process_tag_job` of crates/kengram-mcp/src/drain.rs.
use k_engram.Prelude.{
  ℕ, suc, ◌≤◌, Bool, true, false, List, Option, some, ◌≡◌, refl, ◌∙◌, ap, ◌⊎◌, ◌↔◌, inl, inr, arith,
  if◌then◌else◌, Bool-cases, Result, ok, err,
}
use k_engram.Text.{Text}
use k_engram.Unicode.{Unicode}
use k_engram.Float.{Float}
use k_engram.Core.Failure.{TaggerError, tagger_is_transient}
use k_engram.Core.Tags.{ScopeVocab}
use k_engram.Storage.TagQueue.{PendingTagJob}
use k_engram.Mcp.Link.{LinkError}
use k_engram.Mcp.Drain.{
  Emitted, TagOutput, ThoughtRow, World, Statements, transient, permanent, keep_job, attempts_after,
  after_tagger, with_vocab, with_thought, vocab_answer, fetch_thought, process_tag_job,
  replacement_of, apply_tagger_relations,
}

if_true {ℓ} : {A : Type ℓ} (b : Bool) (x y : A) → b ≡ true → (if b then x else y) ≡ x
if_true true x y e = refl
if_true false x y e = cc

module _ (print_uuid : ℕ → Text) (print : Emitted → Text) (before : Text → Text → Bool)
    (sha256 : List Emitted → Text) (fl : Float) (u : Unicode)
    (tag : Text → Option ScopeVocab → Result TaggerError TagOutput) (model_id : Text) (version : ℕ)
    (vocab_limit : Option ℕ) (known_scopes : List Text) where
  -- The job's thought was read, and the vocabulary, and the tagger answered.
  abbrev pub Asked :
      Statements
      → World
      → PendingTagJob
      → ThoughtRow
      → Option ScopeVocab
      → Result TaggerError TagOutput
      → Type 0
  Asked s w job t vocab answer =
      (s.fetched ≡ true)
      × (fetch_thought w.thoughts job.thought_id ≡ some t)
      × (vocab_answer print_uuid print before sha256 fl u tag model_id version vocab_limit
            known_scopes vocab_limit s.vocab
          ≡ some vocab)
      × (tag t.content vocab ≡ answer)

  process_tag_job-Asked :
      (s : Statements) (w : World) (job : PendingTagJob) (t : ThoughtRow)
      (vocab : Option ScopeVocab) (answer : Result TaggerError TagOutput)
      → Asked s w job t vocab answer
      → process_tag_job print_uuid print before sha256 fl u tag model_id version vocab_limit
          known_scopes s w job
        ≡ after_tagger print_uuid print before sha256 fl u tag model_id version vocab_limit
            known_scopes s w job t vocab answer
  unfolding process_tag_job
  process_tag_job-Asked s w job t vocab answer (fetched, found, vocabulary, answered) =
      if_true s.fetched
        (with_thought print_uuid print before sha256 fl u tag model_id version vocab_limit
          known_scopes s w job (fetch_thought w.thoughts job.thought_id))
        (keep_job s w job, transient) fetched
      ∙ ap
          (with_thought print_uuid print before sha256 fl u tag model_id version vocab_limit
            known_scopes s w job)
          found
      ∙ ap
          (with_vocab print_uuid print before sha256 fl u tag model_id version vocab_limit
            known_scopes s w job t)
          vocabulary
      ∙ ap
          (after_tagger print_uuid print before sha256 fl u tag model_id version vocab_limit
            known_scopes s w job t vocab)
          answered

  -- A failure of the tagger drops the job exactly if it is not transient or the attempt was the
  -- fifth, and otherwise asks for a retry; the tags stay as they were.
  pub tagger_failure_lem :
      (s : Statements) (w : World) (job : PendingTagJob) (t : ThoughtRow)
      (vocab : Option ScopeVocab) (e : TaggerError)
      → Asked s w job t vocab (err e)
      → (((process_tag_job print_uuid print before sha256 fl u tag model_id version vocab_limit
              known_scopes s w job).1
            ≡ permanent)
          ↔ ((tagger_is_transient e ≡ false) ⊎ (4 ≤ job.attempts)))
        × (((process_tag_job print_uuid print before sha256 fl u tag model_id version vocab_limit
                known_scopes s w job).1
              ≡ transient)
            ↔ ((tagger_is_transient e ≡ true) × (suc job.attempts ≤ 4)))
  unfolding after_tagger attempts_after
  tagger_failure_lem s w job t vocab e asked =
      rw (process_tag_job-Asked s w job t vocab (err e) asked) (ground arith)

  -- The cap on attempts does not cover the relations: as long as a tagger's answer has a target that
  -- is not acceptable, the job stays for a retry, whatever its number of attempts.
  pub bad_relation_never_permanent :
      (s : Statements) (w : World) (job : PendingTagJob) (t : ThoughtRow)
      (vocab : Option ScopeVocab) (output : TagOutput) (e : LinkError)
      → Asked s w job t vocab (ok output)
      → replacement_of print_uuid print before sha256 job.thought_id job.tag_job_generation_id
          output.relations
        ≡ err e
      → (process_tag_job print_uuid print before sha256 fl u tag model_id version vocab_limit
          known_scopes s w job).1
        ≡ transient
  unfolding after_tagger apply_tagger_relations
  bad_relation_never_permanent s w job t vocab output e asked bad =
      rw (process_tag_job-Asked s w job t vocab (ok output) asked)
        (elim (Bool-cases s.tags_written) [
          | inl written ↦ simp (written, bad) refl
          | inr lost ↦ simp lost refl
        ])
