-- ===== src/Jobs/Download/Settled.antt =====
-- What a batch of download jobs leaves in the queue and tells in its report.
use lit_trace.Base.{
  ℕ, ◌+◌, ◌*◌, ◌<◌, ◌≤◌, String, ◌≡◌, refl, sym, ap, ◌∙◌, ◌⊎◌, inl, inr, Bool, true, false, none,
  some, List, [], ◌∷◌, ◌++◌, arith, length, map, max, Bool-cases, eq_iff, length-append, ◌==◌,
  if◌then◌else◌, ltb,
}
use mathlib.Core.List.{append-nil, append_assoc}
use lit_trace.Base.All.{All}
use lit_trace.Base.Unique.{is_in}
use lit_trace.Base.Table.{update}
use lit_trace.Context.Papers.{Workspace}
use lit_trace.StateDb.{AsyncTask, completed, failed, dead, Db, Error, second, task_of}
use lit_trace.StateDb.Queue.{claim_pending_async_tasks, set_outcome, update_async_task}
use lit_trace.Json.{Json, set}
use lit_trace.Jobs.{
  done, RetryPolicy, mark_download_job_completed, mark_download_job_failed, failed_job, backoff,
}
use lit_trace.Jobs.Download.{
  Decoder, DownloadExecutionRequest, DownloadExecutionResult, DownloadJobBatchReport,
  execution_input, execute, finish, run_jobs, download_filter, run_pending_download_jobs,
  new_report,
}

abbrev ids_of : List AsyncTask → List String
ids_of [] = []
ids_of (t ∷ ts) = t.task_id ∷ ids_of ts

-- A job that ended: without a lease, and completed, or failed with a time for the retry and an attempt
-- left, or dead with none left.
pub record IsSettled (policy : RetryPolicy) (t : AsyncTask) : Type 0 where
  pub unleased : (t.lease_owner ≡ none) × (t.lease_expires_at ≡ none)
  pub ended :
      (t.status ≡ completed)
      ⊎ ((t.status ≡ failed)
          × (t.attempt_count < policy.max_attempts)
          × ((at : ℕ) × (t.next_attempt_at ≡ some at)))
      ⊎ ((t.status ≡ dead) × (policy.max_attempts ≤ t.attempt_count))

failed_job-IsSettled :
    (error : String) (policy : RetryPolicy) (now : ℕ) (job r : AsyncTask)
    → IsSettled policy (set_outcome (failed_job error policy now job) now r)
unfolding failed_job
failed_job-IsSettled error policy now job r =
    elim (Bool-cases (ltb job.attempt_count policy.max_attempts)) [
      | inl few ↦ rw few record {
        unleased = (refl, refl);
        ended =
            inr (inl (refl, ground (arith, few), (now + backoff policy job.attempt_count, refl)));
      }
      | inr many ↦
          rw many record { unleased = (refl, refl); ended = inr (inr (refl, ground (arith, many))) }
    ]

abbrev row_after : AsyncTask → ℕ → Bool → AsyncTask → AsyncTask
row_after t now b r = if b then set_outcome t now r else r

row_after-IsSettled :
    (policy : RetryPolicy) (t : AsyncTask) (now : ℕ) (id : String) (ids : List String)
    (r : AsyncTask) (b : Bool)
    → (r.task_id == id) ≡ b
    → ((r : AsyncTask) → IsSettled policy (set_outcome t now r))
    → (is_in r.task_id ids ≡ true → IsSettled policy r)
    → is_in (row_after t now b r).task_id (id ∷ ids) ≡ true
    → IsSettled policy (row_after t now b r)
row_after-IsSettled policy t now id ids r true e s h m = s r
row_after-IsSettled policy t now id ids r false e s h m =
    h (ground (arith, eq_iff r.task_id id, eq_iff id r.task_id))

-- An update of the rows of one job settles them, and keeps those that were settled.
update-All :
    (policy : RetryPolicy) (t : AsyncTask) (now : ℕ) (id : String) (ids : List String)
    (rs : List AsyncTask)
    → ((r : AsyncTask) → IsSettled policy (set_outcome t now r))
    → All (λ r. is_in r.task_id ids ≡ true → IsSettled policy r) rs
    → All
        (λ r. is_in r.task_id (id ∷ ids) ≡ true → IsSettled policy r)
        (update (task_of id) (set_outcome t now) rs)
unfolding update
update-All policy t now id ids [] s h = tt
update-All policy t now id ids (r ∷ rs) s h = (
  row_after-IsSettled policy t now id ids r (r.task_id == id) refl s h.0,
  update-All policy t now id ids rs s h.1,
)

-- The identifiers of the jobs that were run, the last one first.
abbrev pub run_before : List AsyncTask → List String → List String
run_before [] ids = ids
run_before (t ∷ ts) ids = run_before ts (t.task_id ∷ ids)

failed_job-task_id :
    (error : String) (policy : RetryPolicy) (now : ℕ) (job : AsyncTask)
    → (failed_job error policy now job).task_id ≡ job.task_id
unfolding failed_job
failed_job-task_id error policy now job = ground arith

-- The row that the worker writes for a result.
abbrev completed_row : ℕ → Json → AsyncTask → AsyncTask
completed_row now v job = record (done (set "execution" v job.result_json) now job) {
  next_attempt_at = none;
}

completed-IsSettled :
    (policy : RetryPolicy) (now : ℕ) (v : Json) (job r : AsyncTask)
    → IsSettled policy (set_outcome (completed_row now v job) now r)
completed-IsSettled policy now v job r = record { unleased = (refl, refl); ended = inl refl }

module _ (d : Decoder)
    (executor : Workspace → DownloadExecutionRequest → String ⊎ DownloadExecutionResult)
    (error_text : Error → String) (policy : RetryPolicy) (now : ℕ) where
  abbrev pub SettledIn : List String → Db → Type 0
  SettledIn ids db = All (λ r. is_in r.task_id ids ≡ true → IsSettled policy r) db.tasks

  finish-SettledIn :
      (job : AsyncTask) (o : String ⊎ DownloadExecutionResult) (s : Db × DownloadJobBatchReport)
      (ids : List String)
      → SettledIn ids s.0
      → SettledIn (job.task_id ∷ ids) (finish d executor error_text policy now job o s).0
  unfolding mark_download_job_completed mark_download_job_failed update_async_task
  finish-SettledIn job (inr result) (db, report) ids h =
      update-All policy (completed_row now result.dumped job) now job.task_id ids db.tasks
        (completed-IsSettled policy now result.dumped job) h
  finish-SettledIn job (inl error) (db, report) ids h =
      rw (failed_job-task_id error policy now job) (
        update-All policy (failed_job error policy now job) now job.task_id ids db.tasks
          (failed_job-IsSettled error policy now job) h)

  run_jobs-SettledIn :
      (jobs : List AsyncTask) (s : Db × DownloadJobBatchReport) (ids : List String)
      → SettledIn ids s.0
      → SettledIn (run_before jobs ids) (run_jobs d executor error_text policy now jobs s).0
  unfolding run_jobs
  run_jobs-SettledIn [] s ids h = h
  run_jobs-SettledIn (j ∷ js) s ids h =
      run_jobs-SettledIn js _ (j.task_id ∷ ids) (
        finish-SettledIn j (execute d executor error_text policy now (execution_input d j)) s ids h)

  -- What a report adds for some jobs: each is named once, and processed or failed with a warning.
  pub record IsCounted (jobs : List AsyncTask) (before after : DownloadJobBatchReport)
      : Type 0 where
    pub named : after.job_ids ≡ before.job_ids ++ map (λ t. t.task_id) jobs
    pub each : after.processed + after.failed ≡ before.processed + before.failed + length jobs
    pub warned : length after.warnings + before.failed ≡ length before.warnings + after.failed

  finish-IsCounted :
      (job : AsyncTask) (o : String ⊎ DownloadExecutionResult) (s : Db × DownloadJobBatchReport)
      → IsCounted (job ∷ []) s.1 (finish d executor error_text policy now job o s).1
  finish-IsCounted job (inr result) (db, report) = record {
    named = refl;
    each = omega arith;
    warned = refl;
  }
  finish-IsCounted job (inl error) (db, report) = record {
    named = refl;
    each = omega arith;
    warned = omega (arith, length-append report.warnings (_ ∷ []));
  }

  run_jobs-IsCounted :
      (jobs : List AsyncTask) (s : Db × DownloadJobBatchReport)
      → IsCounted jobs s.1 (run_jobs d executor error_text policy now jobs s).1
  unfolding run_jobs
  run_jobs-IsCounted [] s = record {
    named = sym (append-nil s.1.job_ids);
    each = omega arith;
    warned = omega arith;
  }
  run_jobs-IsCounted (j ∷ js) s =
      let o = execute d executor error_text policy now (execution_input d j) in
      let one = finish-IsCounted j o s in
      let rest = run_jobs-IsCounted js (finish d executor error_text policy now j o s) in
      record {
        named =
            rest.named
            ∙ (ap (λ ids. ids ++ map (λ t. t.task_id) js) one.named
                ∙ append_assoc s.1.job_ids (j.task_id ∷ []) (map (λ t. t.task_id) js));
        each = omega (arith, one.each, rest.each);
        warned = omega (arith, one.warned, rest.warned);
      }

  nothing-SettledIn :
      (rs : List AsyncTask) → All (λ r. is_in r.task_id [] ≡ true → IsSettled policy r) rs
  nothing-SettledIn [] = tt
  nothing-SettledIn (r ∷ rs) = (λ m. cc, nothing-SettledIn rs)

  -- A batch of download jobs leaves none of the jobs that it claimed behind: whatever their commands and
  -- whatever the executor answers, each of their rows ends without a lease, as completed, as failed with
  -- a time for its retry and an attempt left, or as dead with none left; the report names the claimed
  -- jobs in their order, and counts each once, as processed or as failed with a warning.
  pub run_pending_download_jobs-IsSettled :
      (owner : String) (limit interval : ℕ) (locked : String → Bool) (db : Db)
      → let claimed =
          (claim_pending_async_tasks owner download_filter
            (max 1 limit)
            (max (interval * 4) (120 * second))
            now
            locked
            db).0 in
        let done =
          run_pending_download_jobs d executor error_text policy now owner limit interval locked
            db in
        SettledIn (run_before claimed []) done.0
        × (done.1.job_ids ≡ map (λ t. t.task_id) claimed)
        × (done.1.processed + done.1.failed ≡ length claimed)
        × (length done.1.warnings ≡ done.1.failed)
  unfolding run_pending_download_jobs
  run_pending_download_jobs-IsSettled owner limit interval locked db =
      let claimed =
        claim_pending_async_tasks owner download_filter (max 1 limit)
          (max (interval * 4) (120 * second)) now locked db in
      let counted = run_jobs-IsCounted claimed.0 (claimed.1, new_report) in
      (
        run_jobs-SettledIn claimed.0 (claimed.1, new_report) [] (nothing-SettledIn claimed.1.tasks),
        counted.named,
        omega (arith, counted.each),
        omega (arith, counted.warned),
      )
