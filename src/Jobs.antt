-- ===== src/Jobs.antt =====
-- The background jobs of the queue: what their workers write back when a job ends (download_jobs.py,
-- parse_jobs.py, rag_jobs.py, table_jobs.py, storyline_jobs.py, codex_runtime/compaction.py).
-- The clock of a worker and that of the database are one here, and so are the readings of one call.
pub mod Attempts
pub mod Outbox
pub mod Compaction
pub mod Download
pub mod Table
pub mod Samples
use lit_trace.Base.{
  ℕ, ◌+◌, ◌-◌, ◌*◌, ◌^◌, String, Bool, true, false, Option, none, some, ltb, leb, min,
  if◌then◌else◌, ◌==◌,
}
use lit_trace.Json.{Json, dict, Fields, field, end, set}
use lit_trace.StateDb.{AsyncTask, queued, completed, failed, dead, Db, second}
use lit_trace.StateDb.Queue.{update_async_task}

-- `config.download_retry` and `config.compaction`: the limit and the delay of the retries.
pub record RetryPolicy : Type 0 where
  pub max_attempts : ℕ
  pub base_delay_seconds : ℕ

-- `min(base_delay_seconds * (2 ** max(attempt_count - 1, 0)), 3600)`
unfoldable pub backoff : RetryPolicy → ℕ → ℕ
backoff policy attempt_count =
    min (policy.base_delay_seconds * 2 ^ (attempt_count - 1)) (3600 * second)

abbrev pub released : String → ℕ → AsyncTask → AsyncTask
released error now job = record job {
  last_error = some error;
  updated_at = now;
  lease_owner = none;
  lease_expires_at = none;
  last_heartbeat_at = none;
}

-- The row that the workers write after an exception, with its text.
unfoldable pub failed_job : String → RetryPolicy → ℕ → AsyncTask → AsyncTask
unfolding backoff
failed_job error policy now job =
    let freed = released error now job in
    if ltb job.attempt_count policy.max_attempts
    then record freed {
      status = failed;
      next_attempt_at = some (now + backoff policy job.attempt_count);
    }
    else record freed { status = dead; next_attempt_at = none; completed_at = some now }

unfoldable pub mark_download_job_failed : String → RetryPolicy → ℕ → AsyncTask → Db → Db
mark_download_job_failed error policy now job db =
    update_async_task (failed_job error policy now job) now db

unfoldable pub mark_parse_job_failed : String → RetryPolicy → ℕ → AsyncTask → Db → Db
mark_parse_job_failed error policy now job db =
    update_async_task (failed_job error policy now job) now db

unfoldable pub mark_embedding_job_failed : String → RetryPolicy → ℕ → AsyncTask → Db → Db
mark_embedding_job_failed error policy now job db =
    update_async_task (failed_job error policy now job) now db

unfoldable pub mark_table_job_failed : String → RetryPolicy → ℕ → AsyncTask → Db → Db
mark_table_job_failed error policy now job db =
    update_async_task (failed_job error policy now job) now db

unfoldable pub mark_storyline_job_failed : String → RetryPolicy → ℕ → AsyncTask → Db → Db
mark_storyline_job_failed error policy now job db =
    update_async_task (failed_job error policy now job) now db

abbrev pub done : Fields → ℕ → AsyncTask → AsyncTask
done result now job = record job {
  status = completed;
  result_json = result;
  completed_at = some now;
  updated_at = now;
  last_error = none;
  lease_owner = none;
  lease_expires_at = none;
  last_heartbeat_at = none;
}

unfoldable pub mark_embedding_job_completed : Fields → ℕ → AsyncTask → Db → Db
mark_embedding_job_completed result now job db = update_async_task (done result now job) now db

unfoldable pub mark_download_job_completed : Json → ℕ → AsyncTask → Db → Db
mark_download_job_completed execution now job db =
    update_async_task
      (record (done (set "execution" execution job.result_json) now job) { next_attempt_at = none })
      now db

-- `_defer_embedding_job`: back to the queue until the paper is parsed.
unfoldable pub deferred : ℕ → AsyncTask → AsyncTask
deferred now job = record job {
  status = queued;
  lease_owner = none;
  lease_expires_at = none;
  last_heartbeat_at = none;
  next_attempt_at = some (now + 5 * second);
  last_error = some "waiting_for_parse";
  updated_at = now;
}

unfoldable pub defer_embedding_job : ℕ → AsyncTask → Db → Db
defer_embedding_job now job db = update_async_task (deferred now job) now db
