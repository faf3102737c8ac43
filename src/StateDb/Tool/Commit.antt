-- ===== src/StateDb/Tool/Commit.antt =====
-- The effect of a tool call that commits, and of a second one that expects the same revision.
use lit_trace.Base.{ℕ, ◌+◌, String, ◌≡◌, ◌≢◌, sym, ap, false, none, some, arith, find}
use lit_trace.StateDb.{
  SessionRow, ToolCall, Db, ok, err, cas_mismatch, >>=-eq-ok, of_session, is_frozen,
}
use lit_trace.StateDb.Tool.{
  ToolRequest, call_of, check_request, check_session, set_workspace, commit_fresh, commit_found,
  commit_agent_workspace_tool,
}
use lit_trace.StateDb.Tool.Workspace.{find-write_workspace_self, find-write_workspace_ne}
use lit_trace.StateDb.Tool.Steps.{IsCommitted, commit_fresh-IsCommitted, sessions-insert_task}

-- What a tool call that is no replay does: the session was at the expected revision and not frozen;
-- it is at the next revision, with the new workspace and the same status; other sessions stay.
pub record IsAdvanced (q : ToolRequest) (now : ℕ) (db db' : Db) (c : ToolCall) : Type 0 where
  pub row : SessionRow
  pub before : find (of_session q.session_id) db.sessions ≡ some row
  pub at_expected : row.revision ≡ q.expected_revision
  pub open_status : is_frozen row.status ≡ false
  pub after :
      find (of_session q.session_id) db'.sessions
      ≡ some (set_workspace q.workspace_json q.workspace_sha256 (q.expected_revision + 1) now row)
  pub committed : c.committed_revision ≡ q.expected_revision + 1
  pub others :
      (j : String)
      → j ≢ q.session_id
      → find (of_session j) db'.sessions ≡ find (of_session j) db.sessions

module _ (q : ToolRequest) (now : ℕ) (db db' : Db) (c : ToolCall) where
  steps-IsAdvanced : IsCommitted q now db db' c → IsAdvanced q now db db' c
  steps-IsAdvanced s =
      let same : db'.sessions ≡ s.written.sessions =
        cc (s.result, sessions-insert_task q.async_task s.written s.queued s.queues) in
      record {
        row = s.row;
        before = s.found;
        at_expected = s.at_expected;
        open_status = s.open_status;
        after =
            rw same (find-write_workspace_self _ _ _ _ _ now db s.written s.writes s.row s.found);
        committed = rw s.made;
        others = λ j n.
            rw same (find-write_workspace_ne _ _ _ _ _ now db s.written s.writes s.row s.found j n);
      }

  pub commit-fresh :
      commit_agent_workspace_tool q now db ≡ ok (c, db')
      → find (call_of q.session_id q.idempotency_key) db.tool_calls ≡ none
      → commit_fresh q now db ≡ ok (c, db')
  unfolding commit_agent_workspace_tool commit_found
  commit-fresh h new = let (_, _, found) = >>=-eq-ok (check_request q) _ h in rw new at found

  pub commit-IsAdvanced :
      commit_agent_workspace_tool q now db ≡ ok (c, db')
      → find (call_of q.session_id q.idempotency_key) db.tool_calls ≡ none
      → IsAdvanced q now db db' c
  commit-IsAdvanced h new =
      steps-IsAdvanced (commit_fresh-IsCommitted q now db db' c (commit-fresh h new))

check_session_stale :
    (r : SessionRow) (expected : ℕ)
    → is_frozen r.status ≡ false
    → r.revision ≡ expected + 1
    → check_session (some r) expected ≡ err (cas_mismatch expected (expected + 1))
unfolding check_session
check_session_stale r expected o v = ground arith

-- Two tool calls that expect the same revision of a session, under two keys, are not both committed:
-- once the first one is, the second one, if its arguments pass the checks before the transaction, is
-- refused with the revision that the first one made.
pub commit_race :
    (q q' : ToolRequest) (now later : ℕ) (db db' : Db) (c : ToolCall)
    → commit_agent_workspace_tool q now db ≡ ok (c, db')
    → find (call_of q.session_id q.idempotency_key) db.tool_calls ≡ none
    → q'.session_id ≡ q.session_id
    → q'.expected_revision ≡ q.expected_revision
    → check_request q' ≡ ok tt
    → find (call_of q'.session_id q'.idempotency_key) db'.tool_calls ≡ none
    → commit_agent_workspace_tool q' later db'
      ≡ err (cas_mismatch q'.expected_revision (q'.expected_revision + 1))
unfolding commit_agent_workspace_tool commit_found commit_fresh
commit_race q q' now later db db' c h new same_id same_rev checked new' =
    let a = commit-IsAdvanced q now db db' c h new in
    let row' =
      set_workspace q.workspace_json q.workspace_sha256 (q.expected_revision + 1) now a.row in
    let stale =
      check_session_stale row' q'.expected_revision a.open_status
        (ap (λ n. n + 1) (sym same_rev)) in
    let found : find (of_session q'.session_id) db'.sessions ≡ some row' = rw same_id a.after in
    rw checked (rw new' (rw found (rw stale)))
