-- ===== src/StateDb/Tool.antt =====
-- state_db.py `commit_agent_workspace_tool`: a workspace mutation, its optional job, its audit event
-- and its replay result, in one transaction.
pub mod Workspace
pub mod Steps
pub mod Once
pub mod Replay
pub mod Commit
pub mod Samples
use lit_trace.Base.{
  ℕ, ◌+◌, String, Bool, true, false, not, Option, none, some, List, [], ◌∷◌, ◌++◌, ◌&&◌, ◌||◌, ◌==◌,
  nat_eq, leb, if◌then◌else◌,
}
use lit_trace.Base.Words.{is_blank}
use lit_trace.Base.Table.{find, exists, update}
use lit_trace.Json.{Json, num, str, Fields, end, field, get, get_in, equals_number, jsonb, set}
use lit_trace.StateDb.{
  SessionRow, BindingRow, ToolCall, AsyncTask, queued, Db, Result, ok, err, Error, value_error,
  lookup_error, archived_session, cas_mismatch, unique_violation, is_frozen, of_session, binding_of,
  task_of, ◌>>=◌, ◌>>◌, raise_if,
}
use lit_trace.StateDb.Queue.{same_work, is_queued}
use lit_trace.StateDb.Trail.{ensure_chat_trail, append_recent, set_events, update_trail}

-- The arguments of the method.
pub record ToolRequest : Type 0 where
  pub session_id : String
  pub idempotency_key : String
  pub tool_name : String
  pub arguments_sha256 : String
  pub expected_revision : ℕ
  pub workspace_json : Fields
  pub workspace_sha256 : String
  pub result_json : Fields
  pub audit_event : Fields
  pub async_task : Option AsyncTask

-- `workspace_json["context"]["filters"]["workspace_revision"]`, where these are dicts.
abbrev pub serialized_revision : Fields → Option Json
serialized_revision w = get_in "workspace_revision" (get_in "filters" (get "context" w))

-- `async_task` must belong to the session, and be fresh.
unfoldable pub check_task : String → Option AsyncTask → Result (Unit {0})
check_task id none = ok tt
check_task id (some t) =
    if not (t.session_id == id)
    then err value_error
    else raise_if (not (is_queued t.status) || not (nat_eq t.attempt_count 0)) value_error

-- The checks before the transaction.
unfoldable pub check_request : ToolRequest → Result (Unit {0})
unfolding is_blank check_task
check_request q = do
  raise_if (is_blank q.idempotency_key) value_error
  check_task q.session_id q.async_task
  raise_if (not (equals_number (serialized_revision q.workspace_json) (q.expected_revision + 1)))
      value_error

-- `WHERE session_id = %s AND idempotency_key = %s`
abbrev pub call_of : String → String → ToolCall → Bool
call_of id key c = (c.session_id == id) && (c.idempotency_key == key)

-- A prior call answers, if it was the same one.
unfoldable pub replay : ToolRequest → ToolCall → Db → Result (ToolCall × Db)
replay q prior db =
    if not (prior.tool_name == q.tool_name) || not (prior.arguments_sha256 == q.arguments_sha256)
    then err value_error
    else ok (record prior { reused = true }, db)

-- The row that the transaction reads `FOR UPDATE`, against the revision that the caller expects.
unfoldable pub check_session : Option SessionRow → ℕ → Result (Unit {0})
unfolding is_frozen
check_session none expected = err lookup_error
check_session (some r) expected =
    if is_frozen r.status
    then err archived_session
    else if nat_eq r.revision expected
    then ok tt
    else err (cas_mismatch expected r.revision)

-- `manifest_json || {…}`: the keys of the right side replace those of the left.
abbrev pub set_manifest : ℕ → String → Fields → Fields
set_manifest revision sha m = set "workspace_sha256" (str sha) (set "revision" (num revision) m)

abbrev pub set_workspace : Fields → String → (revision now : ℕ) → SessionRow → SessionRow
set_workspace w sha revision now r = record r {
  workspace_sha256 = some sha;
  workspace_json = jsonb w;
  manifest_json = set_manifest revision sha r.manifest_json;
  revision = revision;
  updated_at = now;
}

abbrev pub set_binding_revision : (revision now : ℕ) → BindingRow → BindingRow
set_binding_revision revision now b = record b { workspace_revision = revision; updated_at = now }

-- The statements that both commit methods make on the workspace of the session and on its trail.
unfoldable pub write_workspace :
    String → Fields → String → (revision : ℕ) → Fields → ℕ → Db → Result Db
write_workspace id w sha revision event now db =
    let db' = record db {
      sessions = update (of_session id) (set_workspace w sha revision now) db.sessions;
      bindings = update (binding_of id) (set_binding_revision revision now) db.bindings;
    } in
    update_trail id (set_events (append_recent event) now) (ensure_chat_trail id now db')

-- A plain `INSERT`: a taken `task_id` or idempotency key is a unique violation.
unfoldable pub insert_task : Option AsyncTask → Db → Result Db
insert_task none db = ok db
insert_task (some t) db =
    if exists (task_of t.task_id) db.tasks
    then err unique_violation
    else if exists (same_work t) db.tasks
    then err unique_violation
    else ok (record db { tasks = db.tasks ++ record t { result_json = jsonb t.result_json } ∷ [] })

abbrev pub call_row : ToolRequest → ℕ → ToolCall
call_row q now = record {
  session_id = q.session_id;
  idempotency_key = q.idempotency_key;
  tool_name = q.tool_name;
  arguments_sha256 = q.arguments_sha256;
  expected_revision = q.expected_revision;
  committed_revision = q.expected_revision + 1;
  result_json = jsonb q.result_json;
  reused = false;
  created_at = now;
  updated_at = now;
}

unfoldable pub commit_fresh : ToolRequest → ℕ → Db → Result (ToolCall × Db)
commit_fresh q now db = do
  check_session (find (of_session q.session_id) db.sessions) q.expected_revision
  db₁ ←
      write_workspace q.session_id q.workspace_json q.workspace_sha256 (q.expected_revision + 1)
        q.audit_event now db
  db₂ ← insert_task q.async_task db₁
  ok (call_row q now, record db₂ { tool_calls = db₂.tool_calls ++ call_row q now ∷ [] })

unfoldable pub commit_found : ToolRequest → ℕ → Db → Option ToolCall → Result (ToolCall × Db)
commit_found q now db (some prior) = replay q prior db
commit_found q now db none = commit_fresh q now db

unfoldable pub commit_agent_workspace_tool : ToolRequest → ℕ → Db → Result (ToolCall × Db)
commit_agent_workspace_tool q now db = do
  check_request q
  commit_found q now db (find (call_of q.session_id q.idempotency_key) db.tool_calls)
