-- ===== src/Mcp/Backfill.antt =====
-- crates/kengram-mcp/src/backfill.rs over the drainer of embeddings: heal the queue, then drain it
-- within a budget. Of the healing statement of crates/kengram-storage/src/lib.rs the conditions on
-- a thought are an argument; the limits are not negative.
pub mod Budget
pub mod Tests
use k_engram.Prelude.{
  ℕ, zero, suc, ◌+◌, ◌-◌, min, Bool, true, false, List, [], ◌∷◌, ◌++◌, take, Option, none, some,
  ◌==◌, ltb, if◌then◌else◌, retain, Result, ok, err,
}
use k_engram.Text.{Text, codes}
use k_engram.Core.Failure.{EmbedderError}
use k_engram.Storage.EmbedQueue.{PendingJob, ThoughtSource, ChunkSource, enqueue_embedding}
use k_engram.Mcp.EmbedDrain.{
  EmbeddingModel, EmbedJobError, Store, Reached, DrainReport, drain_pending_embeddings_with_hygiene,
}

-- The insertions of `INSERT … ON CONFLICT DO NOTHING`, with the number of rows that are new. The
-- ids are fresh UUIDs, which the database draws.
unfoldable pub enqueue_all :
    (ℕ → ℕ) → Text → List ThoughtSource → List PendingJob → ℕ → List PendingJob × ℕ
enqueue_all fresh model [] rows done = (rows, done)
enqueue_all fresh model (t ∷ ts) rows done =
    let (rows', is_new) =
      enqueue_embedding rows (fresh t.thought_id) (codes "thought") t.thought_id model in
    enqueue_all fresh model ts rows' (if is_new then done + 1 else done)

-- `thoughts` in the order of `created_at`. The limit counts the selected thoughts, before the
-- conflicts with queued ones.
unfoldable pub enqueue_unembedded_thoughts :
    (ℕ → ℕ)
    → Text
    → (ThoughtSource → Bool)
    → List ThoughtSource
    → ℕ
    → List PendingJob
    → List PendingJob × ℕ
enqueue_unembedded_thoughts fresh model selects thoughts limit rows =
    enqueue_all fresh model (take limit (retain selects thoughts)) rows 0

pub record BackfillReport : Type 0 where
  pub healed : ℕ
  pub embedded_total : ℕ
  pub failed_total : ℕ

-- What the database does in one round of the loop.
pub record Round : Type 0 where
  pub is_locked : ℕ → Bool
  pub reached_in : PendingJob → Reached
  pub claim_done : Bool

abbrev pub batch : ℕ
batch = 16

pub data BackfillError : Type 0 where
  storage drain : BackfillError

abbrev pub Backfilled : Type 0
Backfilled = Result {0, 0} BackfillError (Store × BackfillReport)

abbrev pub add_drain : BackfillReport → DrainReport → BackfillReport
add_drain r d = record r {
  embedded_total = r.embedded_total + d.embedded_count;
  failed_total = r.failed_total + d.failed_count;
}

-- The end of a round: stop on an empty queue, or if nothing was embedded; else go on.
unfoldable pub after_drain :
    (Store → BackfillReport → ℕ → Option Backfilled)
    → BackfillReport
    → ℕ
    → Option (Store × DrainReport)
    → Option Backfilled
after_drain go_on r budget none = some (err drain)
after_drain go_on r budget (some (s, d)) =
    if d.found == 0
    then some (ok (s, r))
    else if d.embedded_count == 0
    then some (ok (s, add_drain r d))
    else go_on s (add_drain r d) (budget - d.found)

module _ (thoughts : List ThoughtSource) (chunks : List ChunkSource) (active : EmbeddingModel)
    (embed : List Text → Result EmbedderError (List (List ℕ)))
    (show_error : EmbedJobError → Text) where
  -- `drain_pending_embeddings`, without the fence.
  unfoldable pub drain_pending_embeddings : Round → Store → ℕ → Option (Store × DrainReport)
  drain_pending_embeddings round s n =
      drain_pending_embeddings_with_hygiene thoughts chunks active embed show_error false
        round.is_locked round.reached_in round.claim_done s n

  -- Round `i` of the loop; none is the end of the fuel.
  unfoldable pub backfill_loop :
      ℕ → (ℕ → Round) → ℕ → Store → BackfillReport → ℕ → Option Backfilled
  backfill_loop zero rounds i s r budget = none
  backfill_loop (suc fuel) rounds i s r budget =
      if ltb 0 budget
      then after_drain (backfill_loop fuel rounds (i + 1)) r budget
          (drain_pending_embeddings (rounds i) s (min batch budget))
      else some (ok (s, r))

  -- Every round that goes on has found a job, so one round more than the budget is enough.
  unfoldable pub embed_backfill :
      (ℕ → ℕ) → (ThoughtSource → Bool) → Bool → (ℕ → Round) → Store → ℕ → Option Backfilled
  embed_backfill fresh selects heal_done rounds s limit =
      let (rows, n) =
        enqueue_unembedded_thoughts fresh active.model_name selects thoughts limit s.pending in
      if heal_done
      then backfill_loop (suc limit) rounds 0 (record s { pending = rows })
          (record { healed = n; embedded_total = 0; failed_total = 0 }) limit
      else some (err storage)
