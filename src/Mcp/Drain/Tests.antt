-- ===== src/Mcp/Drain/Tests.antt =====
-- One thought, its job, and a tagger that answers, fails, or names a bad target.
use mathlib.Core.List.{Perm}
use k_engram.Prelude.{
  ℕ, ◌+◌, min, Bool, true, false, List, [], ◌∷◌, map, Option, none, some, ◌≡◌, refl, All, Result,
  ok, err,
}
use k_engram.Text.{Text, codes, byte_len, len_utf8, trim, is_whitespace, starts_with}
use k_engram.Unicode.{ascii}
use k_engram.Float.{thousandths}
use k_engram.Sorting.{sort, insert}
use k_engram.Core.Json.{null}
use k_engram.Core.Failure.{TaggerError, t_timeout}
use k_engram.Core.Relation.{references, x_person, x_url, into_link_target}
use k_engram.Core.Tags.{ScopeVocab, default_tags}
use k_engram.Storage.TagQueue.{PendingTagJob, fetch_pending_tag_jobs}
use k_engram.Storage.TagQueue.Unique.{UniqueJobs}
use k_engram.Mcp.Link.{invalid_url, validate_target, validate_name}
use k_engram.Mcp.Link.Checks.{IsLinkable}
use k_engram.Mcp.Drain.{
  ExtractedRelation, Emitted, emitted_of, TagOutput, ThoughtRow, World, Statements, completed,
  transient, DrainTagsReport, Replacement, process_tag_job, fetch_thought, after_tagger,
  apply_tagger_relations, replacement_of, emit_relations, drain_pending_tags, drain_jobs,
}
use k_engram.Mcp.Drain.Completed.{Wrote, process_tag_job_completed}
use k_engram.Mcp.Drain.Relations.{replacement_of_ok}
use k_engram.Mcp.Drain.Report.{Settled, process_tag_job-Settled, drain_pending_tags_lem}
use k_engram.Mcp.Drain.Retry.{Asked, bad_relation_never_permanent}

abbrev no_uuid : ℕ → Text
no_uuid n = []

abbrev by_value : Emitted → Text
by_value e = e.to_value

abbrev in_order : Text → Text → Bool
in_order a b = false

abbrev no_hash : List Emitted → Text
no_hash es = []

abbrev names_ann : ExtractedRelation
names_ann = record { relation = references; target = x_person (codes "ann"); note = none }

abbrev names_ftp : ExtractedRelation
names_ftp = record { relation = references; target = x_url (codes "ftp"); note = none }

abbrev answer : TagOutput
answer = record { tags = default_tags; relations = names_ann ∷ [] }

abbrev bad_answer : TagOutput
bad_answer = record { tags = default_tags; relations = names_ftp ∷ [] }

abbrev good : Text → Option ScopeVocab → Result TaggerError TagOutput
good content vocab = ok answer

abbrev bad : Text → Option ScopeVocab → Result TaggerError TagOutput
bad content vocab = ok bad_answer

abbrev slow : Text → Option ScopeVocab → Result TaggerError TagOutput
slow content vocab = err (t_timeout 30)

abbrev row : ThoughtRow
row = record {
  id = 7;
  content = codes "met ann";
  scope = record { text = codes "global" };
  metadata = null;
  stored = record { tags = default_tags; extractor_model = none; extractor_version = none };
}

abbrev job : PendingTagJob
job = record {
  thought_id = 7;
  tagger_model_id = codes "m";
  tag_job_generation_id = 70;
  attempts = 4;
}

abbrev world : World
world = record { thoughts = row ∷ []; pending = job ∷ []; replacements = [] }

abbrev all_fine : Statements
all_fine = record {
  fetched = true;
  vocab = none;
  tags_written = true;
  relations_written = true;
  completed = true;
  incremented = true;
}

run_completed :
    (process_tag_job no_uuid by_value in_order no_hash thousandths ascii good
      (codes "m")
      1
      none
      []
      all_fine
      world
      job).1
    ≡ completed
unfolding process_tag_job fetch_thought after_tagger apply_tagger_relations replacement_of
    emit_relations validate_target validate_name trim is_whitespace byte_len len_utf8
    into_link_target
run_completed = refl

process_tag_job_completed_example :
    (t : ThoughtRow) × (v : Option ScopeVocab) × (output : TagOutput) × Asked no_uuid by_value
      in_order no_hash thousandths ascii good
      (codes "m")
      1
      none
      []
      all_fine
      world
      job
      t
      v
      (ok output)
    × Wrote no_uuid by_value in_order no_hash thousandths ascii good
        (codes "m")
        1
        none
        []
        world
        (process_tag_job no_uuid by_value in_order no_hash thousandths ascii good
          (codes "m")
          1
          none
          []
          all_fine
          world
          job).0
        job
        t
        v
        output
process_tag_job_completed_example =
    process_tag_job_completed no_uuid by_value in_order no_hash thousandths ascii good (codes "m") 1
      none [] all_fine world job run_completed

process_tag_job-Settled_example :
    Settled no_uuid by_value in_order no_hash thousandths ascii good
      (codes "m")
      1
      none
      []
      all_fine
      world
      job
      (process_tag_job no_uuid by_value in_order no_hash thousandths ascii good
        (codes "m")
        1
        none
        []
        all_fine
        world
        job)
process_tag_job-Settled_example =
    process_tag_job-Settled no_uuid by_value in_order no_hash thousandths ascii good (codes "m") 1
      none [] all_fine world job

abbrev drained : World × DrainTagsReport
drained =
    drain_jobs no_uuid by_value in_order no_hash thousandths ascii slow (codes "m") 1 none [] world
      (record { processed = 1; completed_count = 0; failed_transient = 0; failed_permanent = 0 })
      ((job, all_fine) ∷ [])

drain_run :
    drain_pending_tags no_uuid by_value in_order no_hash thousandths ascii slow
      (codes "m")
      1
      none
      []
      world
      true
      10
      (λ j. all_fine)
    ≡ some (drained.0, drained.1)
unfolding drain_pending_tags fetch_pending_tag_jobs
drain_run = refl

drain_pending_tags_lem_example :
    UniqueJobs drained.0.pending
    × (drained.1.processed ≡ min 10 1)
    × (drained.1.completed_count + drained.1.failed_transient + drained.1.failed_permanent
        ≡ drained.1.processed)
drain_pending_tags_lem_example =
    drain_pending_tags_lem no_uuid by_value in_order no_hash thousandths ascii slow (codes "m") 1
      none [] world drained.0 10 (λ j. all_fine) drained.1 (refl, tt) drain_run

slow-Asked :
    Asked no_uuid by_value in_order no_hash thousandths ascii slow
      (codes "m")
      1
      none
      []
      all_fine
      world
      job
      row
      none
      (err (t_timeout 30))
unfolding fetch_thought
slow-Asked = (refl, refl, refl, refl)

bad-Asked :
    Asked no_uuid by_value in_order no_hash thousandths ascii bad
      (codes "m")
      1
      none
      []
      all_fine
      world
      job
      row
      none
      (ok bad_answer)
unfolding fetch_thought
bad-Asked = (refl, refl, refl, refl)

bad_request :
    replacement_of no_uuid by_value in_order no_hash 7 70 (names_ftp ∷ []) ≡ err invalid_url
unfolding replacement_of emit_relations validate_target byte_len len_utf8 starts_with
    into_link_target
bad_request = refl

bad_relation_never_permanent_example :
    (process_tag_job no_uuid by_value in_order no_hash thousandths ascii bad
      (codes "m")
      1
      none
      []
      all_fine
      world
      job).1
    ≡ transient
bad_relation_never_permanent_example =
    bad_relation_never_permanent no_uuid by_value in_order no_hash thousandths ascii bad (codes "m")
      1 none [] all_fine world job row none bad_answer invalid_url bad-Asked bad_request

abbrev request : Replacement
request = record {
  from = 7;
  generation = 70;
  relations = emitted_of no_uuid by_value in_order no_hash names_ann ∷ [];
  emitted_hash = [];
}

good_request : replacement_of no_uuid by_value in_order no_hash 7 70 (names_ann ∷ []) ≡ ok request
unfolding replacement_of emit_relations validate_target validate_name trim is_whitespace byte_len
    len_utf8 sort insert into_link_target
good_request = refl

replacement_of_ok_example :
    All (λ rel. IsLinkable (into_link_target rel.target)) (names_ann ∷ [])
    × Perm request.relations (map (emitted_of no_uuid by_value in_order no_hash) (names_ann ∷ []))
    × (request.emitted_hash ≡ no_hash request.relations)
    × (request.from ≡ 7)
    × (request.generation ≡ 70)
replacement_of_ok_example =
    replacement_of_ok no_uuid by_value in_order no_hash 7 70 (names_ann ∷ []) request good_request
