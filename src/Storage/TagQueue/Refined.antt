-- ===== src/Storage/TagQueue/Refined.antt =====
-- What `pending_tags` promises, as a function from a thought to its job, and the statements of
-- crates/kengram-storage/src/lib.rs against it.
use k_engram.Prelude.{
  ℕ, Bool, true, false, ◌&&◌, not, List, [], ◌∷◌, map, Option, none, some, ◌≡◌, refl, ◌∙◌, ap, sym,
  inl, inr, arith, ◌==◌, if◌then◌else◌, Bool-cases, is_some, or_else, map_some, retain, any, ==_iff,
  subst, length,
}
use k_engram.Text.{Text}
use k_engram.Storage.TagQueue.{
  PendingTagJob, enqueue_tag_job, is_job, complete_tag_job, bump, max_i32,
  increment_tag_job_attempts,
}
use k_engram.Storage.TagQueue.Unique.{queued, UniqueJobs, statements-UniqueJobs, one_job}
use k_engram.Storage.TagQueue.Lookup.{
  find_job, held, add_attempt, queued-find_job, find_job-append, find_job-retain_other,
  find_job-retain, find_job-bump_other, find_job-bump, any_job, any-is_job,
}

pub data Statement : Type 0 where
  enqueue : ℕ → Text → ℕ → Statement
  complete : ℕ → ℕ → Statement
  increment : ℕ → ℕ → Statement

-- A statement that fails leaves the table as it was.
abbrev kept :
    List PendingTagJob → Option (List PendingTagJob × Bool) → List PendingTagJob × Option Bool
kept rows none = (rows, none)
kept rows (some (after, b)) = (after, some b)

abbrev answered : List PendingTagJob × Bool → List PendingTagJob × Option Bool
answered r = (r.0, some r.1)

abbrev execute : List PendingTagJob → Statement → List PendingTagJob × Option Bool
execute rows (enqueue k model generation) = answered (enqueue_tag_job rows k model generation)
execute rows (complete k generation) = answered (complete_tag_job rows k generation)
execute rows (increment k generation) = kept rows (increment_tag_job_attempts rows k generation)

abbrev JobOf : Type 0
JobOf = ℕ → Option PendingTagJob

abbrev set : JobOf → ℕ → Option PendingTagJob → JobOf
set q k job x = if x == k then job else q x

abbrev of_generation : ℕ → PendingTagJob → Bool
of_generation generation row = row.tag_job_generation_id == generation

abbrev new_job : ℕ → Text → ℕ → PendingTagJob
new_job k model generation = record {
  thought_id = k;
  tagger_model_id = model;
  tag_job_generation_id = generation;
  attempts = 0;
}

-- The promise: a job is only added where there is none, and only changed or dropped by a statement
-- that names its generation.
abbrev specified : JobOf → Statement → JobOf × Option Bool
specified q (enqueue k model generation) =
    if is_some (q k)
    then (q, some false)
    else (set q k (some (new_job k model generation)), some true)
specified q (complete k generation) =
    if held (of_generation generation) (q k) then (set q k none, some true) else (q, some false)
specified q (increment k generation) =
    if held (λ row. of_generation generation row && row.attempts == max_i32) (q k)
    then (q, none)
    else if held (of_generation generation) (q k)
    then (set q k (map_some add_attempt (q k)), some true)
    else (q, some false)

abbrev pub run : List PendingTagJob → List Statement → List PendingTagJob × List (Option Bool)
run rows [] = (rows, [])
run rows (s ∷ ss) =
    let (after, answer) = execute rows s in
    let (last, answers) = run after ss in (last, answer ∷ answers)

abbrev pub specified_run : JobOf → List Statement → JobOf × List (Option Bool)
specified_run q [] = (q, [])
specified_run q (s ∷ ss) =
    let (after, answer) = specified q s in
    let (last, answers) = specified_run after ss in (last, answer ∷ answers)

abbrev Refines : List PendingTagJob × Option Bool → JobOf × Option Bool → Type 0
Refines (rows, a) (q, b) = ((x : ℕ) → find_job x rows ≡ q x) × (a ≡ b)

none_of : {A : Type 0} (o : Option A) → is_some o ≡ false → o ≡ none
none_of none e = refl
none_of (some a) e = cc

put_last :
    (k : ℕ) (job : Option PendingTagJob) (q : JobOf) (x : ℕ) (o : Option PendingTagJob)
    → q k ≡ none
    → o ≡ q x
    → or_else o (if k == x then job else none) ≡ set q k job x
put_last k job q x o free h = elim (Bool-cases (x == k)) [
  | inl e ↦ ground (arith, free, h)
  | inr e ↦ ground (arith, h)
]

same_or_other : (P : ℕ → Type 0) (k : ℕ) → P k → ((x : ℕ) → (x == k) ≡ false → P x) → (x : ℕ) → P x
same_or_other P k here there x = elim (Bool-cases (x == k)) [
  | inl e ↦ subst P (sym ((==_iff x k).0 e)) here
  | inr e ↦ there x e
]

enqueue-Refines :
    (rows : List PendingTagJob) (k generation : ℕ) (model : Text) (q : JobOf)
    → ((x : ℕ) → find_job x rows ≡ q x)
    → Refines (execute rows (enqueue k model generation)) (specified q (enqueue k model generation))
unfolding enqueue_tag_job
enqueue-Refines rows k generation model q h = elim (Bool-cases (queued k rows)) [
  | inl e ↦
      let there : is_some (q k) ≡ true =
        sym (ap is_some (h k)) ∙ sym (queued-find_job k rows) ∙ e in
      rw (e, there) (h, refl)
  | inr e ↦
      let there : is_some (q k) ≡ false =
        sym (ap is_some (h k)) ∙ sym (queued-find_job k rows) ∙ e in
      rw (e, there)
        (
          λ x.
              find_job-append x rows (new_job k model generation)
              ∙ put_last k (some (new_job k model generation)) q x (find_job x rows)
                  (none_of (q k) there) (h x),
          refl,
        )
]

complete-Refines :
    (rows : List PendingTagJob) (k generation : ℕ) (q : JobOf)
    → UniqueJobs rows
    → ((x : ℕ) → find_job x rows ≡ q x)
    → Refines (execute rows (complete k generation)) (specified q (complete k generation))
unfolding complete_tag_job
complete-Refines rows k generation q u h =
    let counted : (length (retain (is_job k generation) rows) == 1)
        ≡ any (is_job k generation) rows =
      ground (arith, one_job k generation rows u) in
    let named : any (is_job k generation) rows ≡ held (of_generation generation) (q k) =
      any-is_job k generation rows u ∙ ap (held (of_generation generation)) (h k) in
    elim (Bool-cases (held (of_generation generation) (q k))) [
      | inl e ↦
          rw (e, counted ∙ named ∙ e)
            (
              same_or_other
                  (λ x.
                    find_job x (retain (λ row. not (is_job k generation row)) rows)
                    ≡ set q k none x)
                  k (ground (arith, find_job-retain k generation rows u, h k, e))
                  (λ x n. ground (arith, find_job-retain_other x k generation rows n, h x)),
              refl,
            )
      | inr e ↦
          rw (e, counted ∙ named ∙ e)
            (
              same_or_other
                  (λ x. find_job x (retain (λ row. not (is_job k generation row)) rows) ≡ q x) k
                  (ground (arith, find_job-retain k generation rows u, h k, e))
                  (λ x n. ground (arith, find_job-retain_other x k generation rows n, h x)),
              refl,
            )
    ]

increment-Refines :
    (rows : List PendingTagJob) (k generation : ℕ) (q : JobOf)
    → UniqueJobs rows
    → ((x : ℕ) → find_job x rows ≡ q x)
    → Refines (execute rows (increment k generation)) (specified q (increment k generation))
unfolding increment_tag_job_attempts
increment-Refines rows k generation q u h =
    let named : any (is_job k generation) rows ≡ held (of_generation generation) (q k) =
      any-is_job k generation rows u ∙ ap (held (of_generation generation)) (h k) in
    let counted : (length (retain (is_job k generation) rows) == 1)
        ≡ any (is_job k generation) rows =
      ground (arith, one_job k generation rows u) in
    let full : any (λ row. is_job k generation row && row.attempts == max_i32) rows
        ≡ held (λ row. of_generation generation row && row.attempts == max_i32) (q k) =
      any_job k generation (λ row. row.attempts == max_i32) rows u
      ∙ ap (held (λ row. of_generation generation row && row.attempts == max_i32)) (h k) in
    elim (Bool-cases
      (held (λ row. of_generation generation row && row.attempts == max_i32) (q k))) [
        | inl over ↦ rw (over, full ∙ over) (h, refl)
        | inr fits ↦ elim (Bool-cases (held (of_generation generation) (q k))) [
          | inl e ↦
              rw (fits, full ∙ fits, e, counted ∙ named ∙ e)
                (
                  same_or_other
                      (λ x.
                        find_job x (map (bump k generation) rows)
                        ≡ set q k (map_some add_attempt (q k)) x)
                      k (ground (arith, find_job-bump k generation rows, h k, e))
                      (λ x n. ground (arith, find_job-bump_other x k generation rows n, h x)),
                  refl,
                )
          | inr e ↦
              rw (fits, full ∙ fits, e, counted ∙ named ∙ e)
                (
                  same_or_other (λ x. find_job x (map (bump k generation) rows) ≡ q x) k
                      (ground (arith, find_job-bump k generation rows, h k, e))
                      (λ x n. ground (arith, find_job-bump_other x k generation rows n, h x)),
                  refl,
                )
        ]
      ]

kept-UniqueJobs :
    (rows : List PendingTagJob) (o : Option (List PendingTagJob × Bool))
    → UniqueJobs rows
    → ((after : List PendingTagJob) (b : Bool) → o ≡ some (after, b) → UniqueJobs after)
    → UniqueJobs (kept rows o).0
kept-UniqueJobs rows none u f = u
kept-UniqueJobs rows (some (after, b)) u f = f after b refl

execute-Refines :
    (rows : List PendingTagJob) (s : Statement) (q : JobOf)
    → UniqueJobs rows
    → ((x : ℕ) → find_job x rows ≡ q x)
    → UniqueJobs (execute rows s).0 × Refines (execute rows s) (specified q s)
execute-Refines rows (enqueue k model generation) q u h = (
  (statements-UniqueJobs rows k generation model u).0,
  enqueue-Refines rows k generation model q h,
)
execute-Refines rows (complete k generation) q u h =
    ((statements-UniqueJobs rows k generation [] u).1, complete-Refines rows k generation q u h)
execute-Refines rows (increment k generation) q u h = (
  kept-UniqueJobs rows (increment_tag_job_attempts rows k generation) u
      (statements-UniqueJobs rows k generation [] u).2,
  increment-Refines rows k generation q u h,
)

-- On a queue with its primary key, any sequence of enqueues, completions and increments, some of
-- which fail, keeps the primary key, gives the answers of the promise, and leaves under each thought
-- the job that the promise names.
pub run_refines :
    (rows : List PendingTagJob) (statements : List Statement) (q : JobOf)
    → UniqueJobs rows
    → ((x : ℕ) → find_job x rows ≡ q x)
    → UniqueJobs (run rows statements).0
      × ((x : ℕ) → find_job x (run rows statements).0 ≡ (specified_run q statements).0 x)
      × ((run rows statements).1 ≡ (specified_run q statements).1)
run_refines rows [] q u h = (u, h, refl)
run_refines rows (s ∷ statements) q u h =
    let (v, (g, e)) = execute-Refines rows s q u h in
    let (w, i, j) = run_refines (execute rows s).0 statements (specified q s).0 v g in (w, i, cc)
