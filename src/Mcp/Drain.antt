-- ===== src/Mcp/Drain.antt =====
-- The tag drainer of crates/kengram-mcp/src/drain.rs over the queue `pending_tags` and the tags of
-- the table `thoughts` (`update_thought_tags` of crates/kengram-storage/src/lib.rs). Whether a
-- statement reaches the database is an argument; one that fails changes nothing. The serialized
-- mutation runs in the database: the requests it carried out are kept in their order.
pub mod Relations
pub mod Report
pub mod Retry
pub mod Completed
pub mod Tests
use k_engram.Prelude.{
  ℕ, suc, ◌+◌, min, Bool, true, false, ◌&&◌, ◌||◌, not, List, [], ◌∷◌, ◌++◌, map, Option, none,
  some, ◌==◌, ltb, leb, length, if◌then◌else◌, Result, ok, err, and_then,
}
use k_engram.Text.{Text, codes}
use k_engram.Unicode.{Unicode}
use k_engram.Float.{Float}
use k_engram.Sorting.{sort}
use k_engram.Core.Json.{Value}
use k_engram.Core.Label.{Scope}
use k_engram.Core.Failure.{TaggerError, tagger_is_transient}
use k_engram.Core.Relation.{
  RelationKind, as_str, ExtractedTarget, into_link_target, kind_str, value_str,
}
use k_engram.Core.Tags.{Tags, ScopeVocab, vocab_is_empty}
use k_engram.Storage.TagQueue.{
  PendingTagJob, complete_tag_job, increment_tag_job_attempts, fetch_pending_tag_jobs, max_i32,
}
use k_engram.Mcp.Finalize.{finalize_tags}
use k_engram.Mcp.Link.{validate_target, LinkError}

abbrev pub max_tag_attempts : ℕ
max_tag_attempts = 5

pub record ExtractedRelation : Type 0 where
  pub relation : RelationKind
  pub target : ExtractedTarget
  pub note : Option Text

pub record TagOutput : Type 0 where
  pub tags : Tags
  pub relations : List ExtractedRelation

-- What `tags`, `tags_extractor_model` and `tags_extractor_version` hold.
pub record Stored : Type 0 where
  pub tags : Tags
  pub extractor_model : Option Text
  pub extractor_version : Option ℕ

pub record ThoughtRow : Type 0 where
  pub id : ℕ
  pub content : Text
  pub scope : Scope
  pub metadata : Value
  pub stored : Stored

-- One emitted relation, as the request names it.
pub record Emitted : Type 0 where
  pub relation : Text
  pub to_kind : Text
  pub to_value : Text
  pub note : Option Text

-- A `replace_tagger_set` request; its source reference is made of the thought and the generation.
pub record Replacement : Type 0 where
  pub from : ℕ
  pub generation : ℕ
  pub relations : List Emitted
  pub emitted_hash : Text

pub record World : Type 0 where
  pub thoughts : List ThoughtRow
  pub pending : List PendingTagJob
  pub replacements : List Replacement

-- Which statements of one job reach the database, and the vocabulary it answers.
pub record Statements : Type 0 where
  pub fetched : Bool
  pub vocab : Option ScopeVocab
  pub tags_written : Bool
  pub relations_written : Bool
  pub completed : Bool
  pub incremented : Bool

pub data TagJobOutcome : Type 0 where
  completed transient permanent : TagJobOutcome

pub record DrainTagsReport : Type 0 where
  pub processed : ℕ
  pub completed_count : ℕ
  pub failed_transient : ℕ
  pub failed_permanent : ℕ

unfoldable pub count_outcome : DrainTagsReport → TagJobOutcome → DrainTagsReport
count_outcome r completed = record r { completed_count = r.completed_count + 1 }
count_outcome r transient = record r { failed_transient = r.failed_transient + 1 }
count_outcome r permanent = record r { failed_permanent = r.failed_permanent + 1 }

-- `fetch_thought`.
unfoldable pub fetch_thought : List ThoughtRow → ℕ → Option ThoughtRow
fetch_thought [] id = none
fetch_thought (row ∷ rows) id = if row.id == id then some row else fetch_thought rows id

unfoldable pub update_thought_tags : List ThoughtRow → ℕ → Tags → Text → ℕ → List ThoughtRow
update_thought_tags rows id tags model version =
    map
      (λ row.
        if row.id == id
        then record row {
          stored = record {
            tags = tags;
            extractor_model = some model;
            extractor_version = some version;
          };
        }
        else row)
      rows

-- `let _ = complete_tag_job(…)`.
unfoldable pub drop_job : Statements → World → PendingTagJob → World
drop_job statements w job =
    if statements.completed
    then record w {
      pending = (complete_tag_job w.pending job.thought_id job.tag_job_generation_id).0;
    }
    else w

abbrev pub bumped : World → Option (List PendingTagJob × Bool) → World
bumped w none = w
bumped w (some (rows, b)) = record w { pending = rows }

-- `let _ = increment_tag_job_attempts(…)`.
unfoldable pub keep_job : Statements → World → PendingTagJob → World
keep_job statements w job =
    if statements.incremented
    then bumped w (increment_tag_job_attempts w.pending job.thought_id job.tag_job_generation_id)
    else w

-- `attempts.saturating_add(1)` on an `i32`.
unfoldable pub attempts_after : PendingTagJob → ℕ
attempts_after job = min (suc job.attempts) max_i32

module _ (print_uuid : ℕ → Text) (print : Emitted → Text) (before : Text → Text → Bool)
    (sha256 : List Emitted → Text) where
  abbrev pub emitted_of : ExtractedRelation → Emitted
  emitted_of rel = record {
    relation = as_str rel.relation;
    to_kind = kind_str (into_link_target rel.target);
    to_value = value_str print_uuid (into_link_target rel.target);
    note = rel.note;
  }

  -- The loop of `apply_tagger_relations`: the first invalid target ends it.
  unfoldable pub emit_relations : List ExtractedRelation → Result LinkError (List Emitted)
  emit_relations [] = ok []
  emit_relations (rel ∷ rels) =
      let rest = emit_relations rels in
      and_then (validate_target (into_link_target rel.target))
        (λ _. and_then rest (λ emitted. ok (emitted_of rel ∷ emitted)))

  -- The request: the relations sorted by their printed form, and the hash of the sorted list.
  unfoldable pub replacement_of : ℕ → ℕ → List ExtractedRelation → Result LinkError Replacement
  replacement_of from generation relations = and_then (emit_relations relations) (λ emitted.
      let sorted = sort (λ a b. before (print a) (print b)) emitted in
      ok (record {
        from = from;
        generation = generation;
        relations = sorted;
        emitted_hash = sha256 sorted;
      }))

  abbrev pub carried_out : Bool → World → Result LinkError Replacement → Result World World
  carried_out written w (err e) = err w
  carried_out written w (ok request) =
      if written then ok (record w { replacements = w.replacements ++ request ∷ [] }) else err w

  -- The error leaves the world as it is.
  unfoldable pub apply_tagger_relations :
      Statements → World → ℕ → ℕ → List ExtractedRelation → Result World World
  apply_tagger_relations statements w from generation relations =
      carried_out statements.relations_written w (replacement_of from generation relations)

  module _ (fl : Float) (u : Unicode)
      (tag : Text → Option ScopeVocab → Result TaggerError TagOutput) (model_id : Text)
      (version : ℕ) (vocab_limit : Option ℕ) (known_scopes : List Text) where
    -- An empty vocabulary is none; a limit below one asks for none; no answer is an error.
    abbrev pub vocab_answer : Option ℕ → Option ScopeVocab → Option (Option ScopeVocab)
    vocab_answer none answer = some none
    vocab_answer (some limit) none = if ltb 0 limit then none else some none
    vocab_answer (some limit) (some v) =
        if ltb 0 limit then (if vocab_is_empty v then some none else some (some v)) else some none

    abbrev pub finish : Statements → PendingTagJob → Result World World → World × TagJobOutcome
    finish statements job (err w) = (keep_job statements w job, transient)
    finish statements job (ok w) = (drop_job statements w job, completed)

    unfoldable pub after_tagger :
        Statements
        → World
        → PendingTagJob
        → ThoughtRow
        → Option ScopeVocab
        → Result TaggerError TagOutput
        → World × TagJobOutcome
    after_tagger statements w job t vocab (ok output) =
        let tags = finalize_tags fl u output.tags t.metadata t.scope vocab known_scopes in
        let persisted = record w {
          thoughts = update_thought_tags w.thoughts job.thought_id tags model_id version;
        } in
        if statements.tags_written
        then finish statements job (
            apply_tagger_relations statements persisted job.thought_id job.tag_job_generation_id
              output.relations)
        else (keep_job statements w job, transient)
    after_tagger statements w job t vocab (err e) =
        if not (tagger_is_transient e) || leb max_tag_attempts (attempts_after job)
        then (drop_job statements w job, permanent)
        else (keep_job statements w job, transient)

    abbrev pub with_vocab :
        Statements
        → World
        → PendingTagJob
        → ThoughtRow
        → Option (Option ScopeVocab)
        → World × TagJobOutcome
    with_vocab statements w job t none = (keep_job statements w job, transient)
    with_vocab statements w job t (some vocab) =
        after_tagger statements w job t vocab (tag t.content vocab)

    abbrev pub with_thought :
        Statements → World → PendingTagJob → Option ThoughtRow → World × TagJobOutcome
    with_thought statements w job none = (drop_job statements w job, permanent)
    with_thought statements w job (some t) =
        with_vocab statements w job t (vocab_answer vocab_limit statements.vocab)

    unfoldable pub process_tag_job : Statements → World → PendingTagJob → World × TagJobOutcome
    process_tag_job statements w job =
        if statements.fetched
        then with_thought statements w job (fetch_thought w.thoughts job.thought_id)
        else (keep_job statements w job, transient)

    -- The loop over the jobs; the statements of each may fail on their own.
    unfoldable pub drain_jobs :
        World → DrainTagsReport → List (PendingTagJob × Statements) → World × DrainTagsReport
    drain_jobs w report [] = (w, report)
    drain_jobs w report ((job, statements) ∷ jobs) =
        let (w', outcome) = process_tag_job statements w job in
        drain_jobs w' (count_outcome report outcome) jobs

    -- None is the error of the first statement, the reading of the jobs.
    unfoldable pub drain_pending_tags :
        World → Bool → ℕ → (PendingTagJob → Statements) → Option (World × DrainTagsReport)
    drain_pending_tags w listed batch_size statements =
        let jobs = fetch_pending_tag_jobs w.pending batch_size in
        if listed
        then some (
            drain_jobs w
              (record {
                processed = length jobs;
                completed_count = 0;
                failed_transient = 0;
                failed_permanent = 0;
              })
              (map (λ job. (job, statements job)) jobs))
        else none
