-- ===== src/Jobs/Compaction.antt =====
-- codex_runtime/compaction.py: the worker that enqueues compaction jobs, and the driver that runs them.
-- `rpc` is the compaction call for a thread on a client of the runtime manager: none, or the text of the
-- error that it raises.
pub mod Driver
use lit_trace.Base.{
  ℕ, ◌+◌, ◌*◌, String, Bool, true, false, Option, none, some, List, [], ◌∷◌, ◌++◌, ◌||◌, ◌==◌, ◌⊎◌,
  inl, inr, join, leb, if◌then◌else◌,
}
use lit_trace.StateDb.{
  AsyncTask, completed, failed, dead, BindingRow, Db, Result, ok, err, Error, second,
}
use lit_trace.StateDb.Binding.{
  get_agent_thread_binding, upsert_agent_thread_binding, compaction_due_sessions,
}
use lit_trace.StateDb.Queue.{
  Filter, enqueue_async_task, update_async_task, claim_pending_async_tasks,
}
use lit_trace.Jobs.{RetryPolicy, backoff}
use lit_trace.Jobs.Outbox.{new_task}

unfoldable pub compaction_job : ℕ → BindingRow → AsyncTask
compaction_job now b =
    record (new_task (join ("compaction-" ∷ b.session_id ∷ "-" ∷ b.codex_thread_id ∷ []))
      b.session_id "compaction_job" b.codex_thread_id "" now) { next_attempt_at = some now }

-- A session is processed if its enqueue did not raise.
abbrev pub noted : String → List String × Db → Result (AsyncTask × Db) → List String × Db
noted session (ids, db) (ok (task, db')) = (ids ++ session ∷ [], db')
noted session (ids, db) (err e) = (ids, db)

unfoldable pub enqueue_due : ℕ → List BindingRow → List String × Db → List String × Db
unfolding compaction_job
enqueue_due now [] s = s
enqueue_due now (b ∷ bs) (ids, db) =
    enqueue_due now bs
      (noted b.session_id (ids, db) (enqueue_async_task (compaction_job now b) now db))

-- `CompactionWorker.run_once`
unfoldable pub run_once :
    (threshold_turns threshold_tokens batch_size now : ℕ) → Db → List String × Db
unfolding enqueue_due
run_once threshold_turns threshold_tokens batch_size now db =
    enqueue_due now (compaction_due_sessions threshold_turns threshold_tokens batch_size now db)
      ([], db)

-- `_mark_completed`: the lease stays.
unfoldable pub completed_task : ℕ → AsyncTask → AsyncTask
completed_task now t = record t { status = completed; completed_at = some now; last_error = none }

-- `_mark_failed`
unfoldable pub failed_task : String → RetryPolicy → ℕ → AsyncTask → AsyncTask
unfolding backoff
failed_task error policy now t =
    let new_attempt = t.attempt_count + 1 in
    if leb policy.max_attempts new_attempt
    then record t {
      status = dead;
      attempt_count = new_attempt;
      last_error = some error;
      updated_at = now;
    }
    else record t {
      status = failed;
      attempt_count = new_attempt;
      last_error = some error;
      next_attempt_at = some (now + backoff policy new_attempt);
    }

abbrev pub compaction_filter : Filter
compaction_filter = record {
  kind = some "compaction_job";
  session_id = none;
  task_ids = none;
  artifact_ids = none;
}

pub record JobReport : Type 0 where
  pub enqueued : ℕ
  pub succeeded : ℕ
  pub failed : ℕ
  pub warnings : List String

module _ (rpc : String → Option String) (error_text : Error → String) (policy : RetryPolicy)
    (now : ℕ) where
  -- `_compact_one`: the call, and then the binding with the time of the compaction. The text of the
  -- exception, or the new database.
  abbrev pub stamped : Result Db → String ⊎ Db
  stamped (ok db') = inr db'
  stamped (err e) = inl (error_text e)

  abbrev pub called : Option String → BindingRow → Db → String ⊎ Db
  called (some error) b db = inl error
  called none b db =
      stamped (upsert_agent_thread_binding (record b { last_compacted_at = some now }) now db)

  unfoldable pub compact_one : BindingRow → Db → String ⊎ Db
  compact_one b db = called (rpc b.codex_thread_id) b db

  -- `binding.status in ("active", "idle")`
  abbrev pub is_live : BindingRow → Bool
  is_live b = (b.status == "active") || (b.status == "idle")

  abbrev pub skip : AsyncTask → String → Db × JobReport → Db × JobReport
  skip t status (db, report) = (
    update_async_task (completed_task now t) now db,
    record report {
      enqueued = report.enqueued + 1;
      warnings =
          report.warnings
          ++ join ("compaction skipped session=" ∷ t.session_id ∷ " status=" ∷ status ∷ []) ∷ [];
    },
  )

  abbrev pub finish : AsyncTask → Db × JobReport → String ⊎ Db → Db × JobReport
  finish t (db, report) (inr db') = (
    update_async_task (completed_task now t) now db',
    record report { enqueued = report.enqueued + 1; succeeded = report.succeeded + 1 },
  )
  finish t (db, report) (inl error) = (
    update_async_task (failed_task error policy now t) now db,
    record report { enqueued = report.enqueued + 1; failed = report.failed + 1 },
  )

  abbrev pub run_bound : AsyncTask → Option BindingRow → Db × JobReport → Db × JobReport
  run_bound t none s = skip t "no-binding" s
  run_bound t (some b) (db, report) =
      if is_live b then finish t (db, report) (compact_one b db) else skip t b.status (db, report)

  unfoldable pub run_task : AsyncTask → Db × JobReport → Db × JobReport
  run_task t (db, report) = run_bound t (get_agent_thread_binding t.session_id db) (db, report)

  unfoldable pub run_tasks : List AsyncTask → Db × JobReport → Db × JobReport
  run_tasks [] s = s
  run_tasks (t ∷ ts) s = run_tasks ts (run_task t s)

  abbrev new_report : JobReport
  new_report = record { enqueued = 0; succeeded = 0; failed = 0; warnings = [] }

  abbrev run_claimed : List AsyncTask × Db → Db × JobReport
  run_claimed (claimed, db) = run_tasks claimed (db, new_report)

  unfoldable pub run_pending_compaction :
      (enabled : Bool) → (limit : ℕ) → (locked : String → Bool) → Db → Db × JobReport
  run_pending_compaction enabled limit locked db =
      if enabled
      then run_claimed (
          claim_pending_async_tasks "compaction" compaction_filter limit (300 * second) now locked
            db)
      else (db, new_report)
