-- ===== src/Jobs/Outbox.antt =====
-- lifecycle.py: the lifecycle events, and the outbox of embedding requests with its dispatcher.
-- `digest` is the hexadecimal SHA-256 of the parts, joined by NUL, and `str_of` is Python's `str`.
pub mod Promise
pub mod Batch
use lit_trace.Base.{
  ℕ, ◌+◌, ◌*◌, String, Bool, true, false, Option, none, some, List, [], ◌∷◌, ◌++◌, first_chars,
  join,
}
use lit_trace.Json.{Json, null, str, dict, Fields, end, field, get}
use lit_trace.StateDb.{AsyncTask, queued, completed, second, Db, Result, ok, err, Error}
use lit_trace.StateDb.Trail.{append_chat_event}
use lit_trace.StateDb.Queue.{
  Filter, enqueue_async_task, update_async_task, claim_pending_async_tasks,
}
use lit_trace.Jobs.{RetryPolicy, failed_job}

abbrev pub text_or_empty : Option String → String
text_or_empty none = ""
text_or_empty (some s) = s

abbrev pub text_json : Option String → Json
text_json none = null
text_json (some s) = str s

-- The defaults of `AsyncTaskRecord`.
abbrev pub new_task : (task_id session_id kind artifact_id content_sha256 : String) → ℕ → AsyncTask
new_task task_id session_id kind artifact_id content_sha256 now = record {
  task_id = task_id;
  session_id = session_id;
  kind = kind;
  artifact_id = artifact_id;
  event_type = "";
  profile_id = "";
  source_revision = "";
  content_sha256 = content_sha256;
  status = queued;
  attempt_count = 0;
  next_attempt_at = none;
  last_heartbeat_at = none;
  lease_owner = none;
  lease_expires_at = none;
  last_error = none;
  result_json = end;
  created_at = now;
  updated_at = now;
  completed_at = none;
}

module _ (digest : List String → String) where
  unfoldable pub record_lifecycle_event :
      (session_id paper_id event_type : String)
      → (task_id artifact_id : Option String) → Fields
      → (now_text : String) → ℕ
      → Db
      → Result Db
  record_lifecycle_event session_id paper_id event_type task_id artifact_id payload now_text now
        db =
      append_chat_event session_id
        (field "event_id"
          (str (first_chars 16 (digest (session_id ∷ paper_id ∷ event_type ∷ now_text ∷ []))))
          (field "paper_id" (str paper_id) (
            field "event_type" (str event_type) (
              field "occurred_at" (str now_text) (
                field "task_id" (text_json task_id) (
                  field "artifact_id" (text_json artifact_id)
                    (field "payload" (dict payload) end)))))))
        now db

  unfoldable pub enqueue_embedding_outbox :
      (session_id artifact_id : String)
      → Option String
      → Fields
      → (now_text : String) → ℕ
      → Db
      → Result (AsyncTask × Db)
  enqueue_embedding_outbox session_id artifact_id content_sha256 payload now_text now db =
      let sha = text_or_empty content_sha256 in
      enqueue_async_task
        (record (new_task (digest (session_id ∷ artifact_id ∷ sha ∷ now_text ∷ [])) session_id
          "artifact_outbox" artifact_id sha now) {
            event_type = "embedding_requested";
            result_json = payload;
          })
        now db

-- `result_json.get("source_revision")`, where JSON's null is None.
abbrev pub source_revision_of : (Json → String) → Option Json → String
source_revision_of str_of none = ""
source_revision_of str_of (some null) = ""
source_revision_of str_of (some v) = str_of v

abbrev pub outbox_filter : Option String → Option (List String) → Filter
outbox_filter session_id artifact_ids = record {
  kind = some "artifact_outbox";
  session_id = session_id;
  task_ids = none;
  artifact_ids = artifact_ids;
}

-- What a dispatch reports.
pub record Report : Type 0 where
  pub dispatched : ℕ
  pub failed : ℕ
  pub warnings : List String

abbrev pub dispatched_row : ℕ → AsyncTask → AsyncTask
dispatched_row now r = record r {
  status = completed;
  completed_at = some now;
  last_error = none;
  next_attempt_at = none;
  lease_owner = none;
  lease_expires_at = none;
  updated_at = now;
}

-- The `except` branch keeps `last_heartbeat_at`, which the workers' own branch clears.
abbrev pub undispatched_row : (Error → String) → RetryPolicy → ℕ → Error → AsyncTask → AsyncTask
undispatched_row error_text policy now e r = record (failed_job (error_text e) policy now r) {
  last_heartbeat_at = r.last_heartbeat_at;
}

module _ (digest : List String → String) (str_of : Json → String) where
  unfoldable pub embedding_job_id : AsyncTask → String
  embedding_job_id r = join (
      "emb:"
      ∷ first_chars 24 (
          digest (
            r.session_id
            ∷ r.artifact_id
            ∷ r.content_sha256
            ∷ source_revision_of str_of (get "source_revision" r.result_json)
            ∷ []))
      ∷ [])

  unfoldable pub embedding_job : ℕ → AsyncTask → AsyncTask
  unfolding embedding_job_id
  embedding_job now r =
      record (new_task (embedding_job_id r) r.session_id "embedding_job" r.artifact_id
        r.content_sha256 now) {
          profile_id = join ("pending:" ∷ r.session_id ∷ []);
          source_revision = source_revision_of str_of (get "source_revision" r.result_json);
        }

  module _ (policy : RetryPolicy) (error_text : Error → String) (now : ℕ) where
    abbrev pub settle : AsyncTask → Db × Report → Result (AsyncTask × Db) → Db × Report
    settle r (db, report) (ok (job, db')) = (
      update_async_task (dispatched_row now r) now db',
      record report { dispatched = report.dispatched + 1 },
    )
    settle r (db, report) (err e) = (
      update_async_task (undispatched_row error_text policy now e r) now db,
      record report {
        failed = report.failed + 1;
        warnings = report.warnings ++ join ("outbox:" ∷ r.task_id ∷ ":" ∷ error_text e ∷ []) ∷ [];
      },
    )

    -- One claimed row: its embedding job is enqueued, and then the row is completed.
    unfoldable pub dispatch_one : AsyncTask → Db × Report → Db × Report
    dispatch_one r (db, report) =
        settle r (db, report) (enqueue_async_task (embedding_job now r) now db)

    unfoldable pub dispatch_rows : List AsyncTask → Db × Report → Db × Report
    dispatch_rows [] s = s
    dispatch_rows (r ∷ rs) s = dispatch_rows rs (dispatch_one r s)

    unfoldable pub dispatch_embedding_outbox :
        String
        → (limit : ℕ) → (session_id : Option String) → (artifact_ids : Option (List String))
        → (locked : String → Bool) → Db
        → Db × Report
    dispatch_embedding_outbox worker limit session_id artifact_ids locked db =
        let (records, db') =
          claim_pending_async_tasks worker (outbox_filter session_id artifact_ids) limit
            (300 * second) now locked db in
        dispatch_rows records (db', record { dispatched = 0; failed = 0; warnings = [] })
