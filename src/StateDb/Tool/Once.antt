-- ===== src/StateDb/Tool/Once.antt =====
-- A retried tool call commits once: its second run answers with the stored call.
use lit_trace.Base.{ℕ, ◌≡◌, refl, true, Option, none, some, List, [], ◌∷◌, ◌++◌, arith, eq_refl}
use lit_trace.Base.Table.{find, find-append}
use lit_trace.StateDb.{ToolCall, Db, ok, >>=-eq-ok}
use lit_trace.StateDb.Tool.Workspace.{tool_calls-write_workspace}
use lit_trace.StateDb.Tool.Steps.{commit_fresh-IsCommitted, tool_calls-insert_task}
use lit_trace.StateDb.Tool.{
  ToolRequest, call_of, call_row, check_request, replay, commit_found, commit_agent_workspace_tool,
}

-- The call that was stored is found again, and answers with itself.
call_of-call_row :
    (q : ToolRequest) (now : ℕ) → call_of q.session_id q.idempotency_key (call_row q now) ≡ true
call_of-call_row q now = simp eq_refl

replay_twice :
    (q : ToolRequest) (db db' : Db) (prior c : ToolCall)
    → replay q prior db ≡ ok (c, db')
    → (db' ≡ db) × (replay q prior db ≡ ok (record c { reused = true }, db))
unfolding replay
replay_twice q db db' prior c h = (ground arith, ground arith)

replay-call_row :
    (q : ToolRequest) (now : ℕ) (db : Db)
    → replay q (call_row q now) db ≡ ok (record (call_row q now) { reused = true }, db)
unfolding replay
replay-call_row q now db = ground (arith, eq_refl q.tool_name, eq_refl q.arguments_sha256)

find-call_row :
    (q : ToolRequest) (now : ℕ) (cs : List ToolCall)
    → find (call_of q.session_id q.idempotency_key) cs ≡ none
    → find (call_of q.session_id q.idempotency_key) (cs ++ call_row q now ∷ [])
      ≡ some (call_row q now)
unfolding find
find-call_row q now cs h =
    let p = call_of q.session_id q.idempotency_key in
    rw (find-append p cs (call_row q now ∷ []), h, call_of-call_row q now)

commit_found_twice :
    (q : ToolRequest) (now later : ℕ) (db db' : Db) (c : ToolCall) (o : Option ToolCall)
    → find (call_of q.session_id q.idempotency_key) db.tool_calls ≡ o
    → commit_found q now db o ≡ ok (c, db')
    → commit_found q later db' (find (call_of q.session_id q.idempotency_key) db'.tool_calls)
      ≡ ok (record c { reused = true }, db')
unfolding commit_found
commit_found_twice q now later db db' c (some prior) e h =
    let (same, again) = replay_twice q db db' prior c h in rw (same, e) again
commit_found_twice q now later db db' c none e h =
    let steps = commit_fresh-IsCommitted q now db db' c h in
    let stored : db'.tool_calls ≡ db.tool_calls ++ call_row q now ∷ [] = cc (
      steps.result,
      tool_calls-insert_task _ _ _ steps.queues,
      tool_calls-write_workspace _ _ _ _ _ _ _ _ steps.writes,
    ) in
    let p = call_of q.session_id q.idempotency_key in
    let found : find p db'.tool_calls ≡ some (call_row q now) =
      rw stored (find-call_row q now db.tool_calls e) in
    rw (found, steps.made) (replay-call_row q now db')

-- A tool call that was committed, and is run again with the same arguments, at any time, returns
-- the same record marked as reused, and changes nothing in the database.
pub commit_once :
    (q : ToolRequest) (now later : ℕ) (db db' : Db) (c : ToolCall)
    → commit_agent_workspace_tool q now db ≡ ok (c, db')
    → commit_agent_workspace_tool q later db' ≡ ok (record c { reused = true }, db')
unfolding commit_agent_workspace_tool
commit_once q now later db db' c h =
    let (_, checked, found) = >>=-eq-ok (check_request q) _ h in
    rw checked (commit_found_twice q now later db db' c _ refl found)
