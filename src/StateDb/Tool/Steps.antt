-- ===== src/StateDb/Tool/Steps.antt =====
-- The steps of a tool call that committed: what each read and wrote.
use lit_trace.Base.{ℕ, ◌+◌, ◌≡◌, false, Option, some, [], ◌∷◌, ◌++◌, arith, find}
use lit_trace.StateDb.{SessionRow, ToolCall, AsyncTask, Db, ok, >>=-eq-ok, of_session, is_frozen}
use lit_trace.StateDb.Tool.{
  ToolRequest, call_row, check_session, write_workspace, insert_task, commit_fresh,
}
use lit_trace.StateDb.Tool.Workspace.{check_session_ok}

pub record IsCommitted (q : ToolRequest) (now : ℕ) (db db' : Db) (c : ToolCall) : Type 0 where
  pub row : SessionRow
  pub found : find (of_session q.session_id) db.sessions ≡ some row
  pub at_expected : row.revision ≡ q.expected_revision
  pub open_status : is_frozen row.status ≡ false
  pub written : Db
  pub writes :
      write_workspace q.session_id q.workspace_json q.workspace_sha256
        (q.expected_revision + 1)
        q.audit_event
        now
        db
      ≡ ok written
  pub queued : Db
  pub queues : insert_task q.async_task written ≡ ok queued
  pub made : c ≡ call_row q now
  pub result : db' ≡ record queued { tool_calls = queued.tool_calls ++ call_row q now ∷ [] }

pub commit_fresh-IsCommitted :
    (q : ToolRequest) (now : ℕ) (db db' : Db) (c : ToolCall)
    → commit_fresh q now db ≡ ok (c, db')
    → IsCommitted q now db db' c
unfolding commit_fresh
commit_fresh-IsCommitted q now db db' c h =
    let (_, checked, h₁) =
      >>=-eq-ok (check_session (find (of_session q.session_id) db.sessions) q.expected_revision) _
        h in
    let (db₁, e₁, h₂) =
      >>=-eq-ok
        (write_workspace q.session_id q.workspace_json q.workspace_sha256 (q.expected_revision + 1)
          q.audit_event now db)
        _ h₁ in
    let (db₂, e₂, h₃) = >>=-eq-ok (insert_task q.async_task db₁) _ h₂ in
    let (r, f, v, o) = check_session_ok _ q.expected_revision checked in
    record {
      row = r;
      found = f;
      at_expected = v;
      open_status = o;
      written = db₁;
      writes = e₁;
      queued = db₂;
      queues = e₂;
      made = ground arith;
      result = ground arith;
    }

pub tool_calls-insert_task :
    (t : Option AsyncTask) (db db' : Db)
    → insert_task t db ≡ ok db'
    → db'.tool_calls ≡ db.tool_calls
unfolding insert_task
tool_calls-insert_task t db db' h = ground arith

pub sessions-insert_task :
    (t : Option AsyncTask) (db db' : Db) → insert_task t db ≡ ok db' → db'.sessions ≡ db.sessions
unfolding insert_task
sessions-insert_task t db db' h = ground arith
