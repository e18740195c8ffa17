-- ===== src/Mcp/Drain/Completed.antt =====
-- What a completed tag job has written, in `process_tag_job` of crates/kengram-mcp/src/drain.rs.
use k_engram.Prelude.{
  ℕ, Bool, true, false, not, ◌||◌, List, [], ◌∷◌, ◌++◌, Option, none, some, ◌≡◌, refl, inl, inr,
  if◌then◌else◌, Bool-cases, leb, Result, ok, err,
}
use k_engram.Text.{Text}
use k_engram.Unicode.{Unicode}
use k_engram.Float.{Float}
use k_engram.Core.Failure.{TaggerError, tagger_is_transient}
use k_engram.Core.Tags.{ScopeVocab}
use k_engram.Storage.TagQueue.{PendingTagJob}
use k_engram.Mcp.Finalize.{finalize_tags}
use k_engram.Mcp.Link.{LinkError}
use k_engram.Mcp.Drain.Retry.{Asked}
use k_engram.Mcp.Drain.{
  Emitted, TagOutput, ThoughtRow, World, Statements, TagJobOutcome, completed, transient,
  Replacement, drop_job, keep_job, max_tag_attempts, attempts_after, carried_out, finish,
  after_tagger, with_vocab, with_thought, vocab_answer, fetch_thought, process_tag_job,
  replacement_of, apply_tagger_relations, update_thought_tags,
}

module _ (print_uuid : ℕ → Text) (print : Emitted → Text) (before : Text → Text → Bool)
    (sha256 : List Emitted → Text) (fl : Float) (u : Unicode)
    (tag : Text → Option ScopeVocab → Result TaggerError TagOutput) (model_id : Text) (version : ℕ)
    (vocab_limit : Option ℕ) (known_scopes : List Text) where
  -- What a completed job did to the world `w`, to reach `v`.
  abbrev pub Wrote :
      World → World → PendingTagJob → ThoughtRow → Option ScopeVocab → TagOutput → Type 0
  Wrote w v job t vocab output =
      (v.thoughts
        ≡ update_thought_tags w.thoughts job.thought_id
            (finalize_tags fl u output.tags t.metadata t.scope vocab known_scopes) model_id version)
      × ((request : Replacement) × (replacement_of print_uuid print before sha256 job.thought_id
              job.tag_job_generation_id output.relations
            ≡ ok request)
          × (v.replacements ≡ w.replacements ++ request ∷ []))

  drop_job-frame :
      (s : Statements) (w : World) (job : PendingTagJob)
      → ((drop_job s w job).thoughts ≡ w.thoughts)
        × ((drop_job s w job).replacements ≡ w.replacements)
  unfolding drop_job
  drop_job-frame s w job = elim (Bool-cases s.completed) [
    | inl e ↦ simp e (refl, refl)
    | inr e ↦ simp e (refl, refl)
  ]

  finish_completed :
      (s : Statements) (v : World) (job : PendingTagJob) (written : Bool)
      (r : Result LinkError Replacement)
      → (finish print_uuid print before sha256 fl u tag model_id version vocab_limit known_scopes s
          job
          (carried_out print_uuid print before sha256 written v r)).1
        ≡ completed
      → (request : Replacement) × (r ≡ ok request)
        × ((finish print_uuid print before sha256 fl u tag model_id version vocab_limit known_scopes
              s job
              (carried_out print_uuid print before sha256 written v r)).0.thoughts
            ≡ v.thoughts)
        × ((finish print_uuid print before sha256 fl u tag model_id version vocab_limit known_scopes
              s job
              (carried_out print_uuid print before sha256 written v r)).0.replacements
            ≡ v.replacements ++ request ∷ [])
  finish_completed s v job written (err x) e = cc
  finish_completed s v job true (ok request) e =
      let frame =
        drop_job-frame s (record v { replacements = v.replacements ++ request ∷ [] }) job in
      (request, refl, frame.0, frame.1)
  finish_completed s v job false (ok request) e = cc

  after_tagger_completed :
      (s : Statements) (w : World) (job : PendingTagJob) (t : ThoughtRow)
      (vocab : Option ScopeVocab) (answer : Result TaggerError TagOutput)
      → (after_tagger print_uuid print before sha256 fl u tag model_id version vocab_limit
          known_scopes s w job t vocab answer).1
        ≡ completed
      → (output : TagOutput) × (answer ≡ ok output)
        × Wrote w
            (after_tagger print_uuid print before sha256 fl u tag model_id version vocab_limit
              known_scopes s w job t vocab answer).0
            job
            t
            vocab
            output
  unfolding after_tagger apply_tagger_relations
  after_tagger_completed s w job t vocab (err x) e =
      elim (Bool-cases (not (tagger_is_transient x) || leb max_tag_attempts (attempts_after job))) [
        | inl a ↦ absurd (cc (rw a at e))
        | inr a ↦ absurd (cc (rw a at e))
      ]
  after_tagger_completed s w job t vocab (ok output) e = persisted_completed s.tags_written e
    where
      persisted : World
      persisted = record w {
        thoughts =
            update_thought_tags w.thoughts job.thought_id
              (finalize_tags fl u output.tags t.metadata t.scope vocab known_scopes) model_id
              version;
      }

      answered : World × TagJobOutcome
      answered =
          finish print_uuid print before sha256 fl u tag model_id version vocab_limit known_scopes s
            job
            (carried_out print_uuid print before sha256 s.relations_written persisted (
              replacement_of print_uuid print before sha256 job.thought_id job.tag_job_generation_id
                output.relations))

      persisted_completed :
          (written : Bool)
          → (if written then answered else (keep_job s w job, transient)).1 ≡ completed
          → (o : TagOutput) × (◌≡◌ {A = Result TaggerError TagOutput} (ok output) (ok o))
            × Wrote w (if written then answered else (keep_job s w job, transient)).0 job t vocab o
      persisted_completed false e = cc
      persisted_completed true e =
          let (request, made, thoughts, replacements) =
            finish_completed s persisted job s.relations_written
              (replacement_of print_uuid print before sha256 job.thought_id
                job.tag_job_generation_id output.relations)
              e in
          (output, refl, (thoughts, (request, made, replacements)))

  with_vocab_completed :
      (s : Statements) (w : World) (job : PendingTagJob) (t : ThoughtRow)
      (vocab : Option (Option ScopeVocab))
      → (with_vocab print_uuid print before sha256 fl u tag model_id version vocab_limit
          known_scopes s w job t vocab).1
        ≡ completed
      → (v : Option ScopeVocab) × (output : TagOutput) × (vocab ≡ some v)
        × (tag t.content v ≡ ok output)
        × Wrote w
            (with_vocab print_uuid print before sha256 fl u tag model_id version vocab_limit
              known_scopes s w job t vocab).0
            job
            t
            v
            output
  with_vocab_completed s w job t none e = cc
  with_vocab_completed s w job t (some v) e =
      let (output, answered, wrote) = after_tagger_completed s w job t v (tag t.content v) e in
      (v, output, refl, answered, wrote)

  -- A completed job is the outcome of a whole run: the thought was there, the tagger answered on
  -- its content, and what was written is the finalized form of that answer, on this thought's row
  -- only, and one replacement of the whole emitted set of relations.
  pub process_tag_job_completed :
      (s : Statements) (w : World) (job : PendingTagJob)
      → (process_tag_job print_uuid print before sha256 fl u tag model_id version vocab_limit
          known_scopes s w job).1
        ≡ completed
      → (t : ThoughtRow) × (v : Option ScopeVocab) × (output : TagOutput) × Asked print_uuid print
          before sha256 fl u tag model_id version vocab_limit known_scopes s w job t v
          (ok output)
        × Wrote w
            (process_tag_job print_uuid print before sha256 fl u tag model_id version vocab_limit
              known_scopes s w job).0
            job
            t
            v
            output
  unfolding process_tag_job
  process_tag_job_completed s w job e = fetched_completed s.fetched refl e
    where
      found_completed :
          (found : Option ThoughtRow)
          → (with_thought print_uuid print before sha256 fl u tag model_id version vocab_limit
              known_scopes s w job found).1
            ≡ completed
          → (t : ThoughtRow) × (v : Option ScopeVocab) × (output : TagOutput) × (found ≡ some t)
            × (vocab_answer print_uuid print before sha256 fl u tag model_id version vocab_limit
                  known_scopes vocab_limit s.vocab
                ≡ some v)
            × (tag t.content v ≡ ok output)
            × Wrote w
                (with_thought print_uuid print before sha256 fl u tag model_id version vocab_limit
                  known_scopes s w job found).0
                job
                t
                v
                output
      found_completed none e = cc
      found_completed (some t) e =
          let (v, output, vocabulary, answered, wrote) =
            with_vocab_completed s w job t
              (vocab_answer print_uuid print before sha256 fl u tag model_id version vocab_limit
                known_scopes vocab_limit s.vocab)
              e in
          (t, v, output, refl, vocabulary, answered, wrote)

      fetched_completed :
          (fetched : Bool)
          → s.fetched ≡ fetched
          → (if fetched
              then with_thought print_uuid print before sha256 fl u tag model_id version vocab_limit
                  known_scopes s w job
                  (fetch_thought w.thoughts job.thought_id)
              else (keep_job s w job, transient)).1
            ≡ completed
          → (t : ThoughtRow) × (v : Option ScopeVocab) × (output : TagOutput) × Asked print_uuid
              print before sha256 fl u tag model_id version vocab_limit known_scopes s w job t v
              (ok output)
            × Wrote w
                (if fetched
                  then with_thought print_uuid print before sha256 fl u tag model_id version
                      vocab_limit known_scopes s w job
                      (fetch_thought w.thoughts job.thought_id)
                  else (keep_job s w job, transient)).0
                job
                t
                v
                output
      fetched_completed false same e = cc
      fetched_completed true same e =
          let (t, v, output, found, vocabulary, answered, wrote) =
            found_completed (fetch_thought w.thoughts job.thought_id) e in
          (t, v, output, (same, found, vocabulary, answered), wrote)
