-- ===== src/StateDb/Publish.antt =====
-- state_db.py `commit_async_workspace_result`: a worker publishes the result of the task that it
-- leases, in one transaction.
pub mod Changes
pub mod Barred
pub mod Lasting
pub mod Once
pub mod Stale
pub mod Samples
use lit_trace.Base.{ℕ, ◌+◌, String, Bool, not, Option, none, some, ◌||◌, ◌==◌, if◌then◌else◌}
use lit_trace.Base.Table.{find, update}
use lit_trace.Json.{Fields, equals_number, jsonb}
use lit_trace.StateDb.{
  AsyncTask, completed, Db, Result, ok, err, value_error, lookup_error, permission_error,
  lease_mismatch, of_session, task_of, ◌>>=◌, ◌>>◌, raise_if,
}
use lit_trace.StateDb.Queue.{is_running}
use lit_trace.Base.Words.{is_blank}
use lit_trace.StateDb.Tool.{serialized_revision, check_session, write_workspace}

-- The arguments of the method.
pub record PublishRequest : Type 0 where
  pub session_id : String
  pub task_id : String
  pub lease_owner : String
  pub expected_revision : ℕ
  pub workspace_json : Fields
  pub workspace_sha256 : String
  pub result_json : Fields
  pub audit_event : Fields

abbrev pub owned_by : String → Option String → Bool
owned_by owner none = Bool.false
owned_by owner (some s) = s == owner

-- The task row that the transaction reads `FOR UPDATE`.
unfoldable pub check_lease : PublishRequest → Option AsyncTask → Result (Unit {0})
check_lease q none = err lookup_error
check_lease q (some t) =
    if not (t.session_id == q.session_id)
    then err permission_error
    else raise_if (not (is_running t.status) || not (owned_by q.lease_owner t.lease_owner))
        lease_mismatch

-- `SET status = 'completed', … WHERE task_id = %s`
abbrev pub complete : Fields → ℕ → AsyncTask → AsyncTask
complete result now t = record t {
  status = completed;
  next_attempt_at = none;
  last_heartbeat_at = none;
  lease_owner = none;
  lease_expires_at = none;
  last_error = none;
  result_json = jsonb result;
  completed_at = some now;
  updated_at = now;
}

unfoldable pub check_publish : PublishRequest → Result (Unit {0})
unfolding is_blank
check_publish q = do
  raise_if (is_blank q.lease_owner) value_error
  raise_if (not (equals_number (serialized_revision q.workspace_json) (q.expected_revision + 1)))
      value_error

unfoldable pub commit_async_workspace_result :
    PublishRequest → ℕ → Db → Result (Option AsyncTask × Db)
commit_async_workspace_result q now db = do
  check_publish q
  check_lease q (find (task_of q.task_id) db.tasks)
  check_session (find (of_session q.session_id) db.sessions) q.expected_revision
  db₁ ←
      write_workspace q.session_id q.workspace_json q.workspace_sha256 (q.expected_revision + 1)
        q.audit_event now db
  let tasks = update (task_of q.task_id) (complete q.result_json now) db₁.tasks
  ok (find (task_of q.task_id) tasks, record db₁ { tasks = tasks })
