-- ===== src/StateDb/Tool/Replay.antt =====
-- A call that names the key, the tool and the arguments of a committed one is answered by it, whatever
-- workspace and result it brings.
use lit_trace.Base.{ℕ, ◌≡◌, refl, ap, true, false, Option, none, some}
use lit_trace.Base.Table.{find}
use lit_trace.StateDb.{ToolCall, Db, ok, >>=-eq-ok}
use lit_trace.StateDb.Tool.{
  ToolRequest, call_of, check_request, replay, commit_found, commit_agent_workspace_tool,
}
use lit_trace.StateDb.Tool.Once.{commit_once}
use lit_trace.StateDb.Tool.Steps.{commit_fresh-IsCommitted}

-- The stored call behind an answer that was reused.
found_prior :
    (q : ToolRequest) (now : ℕ) (db : Db) (c : ToolCall) (o : Option ToolCall)
    → commit_found q now db o ≡ ok (record c { reused = true }, db)
    → (prior : ToolCall) × (o ≡ some prior)
      × (replay q prior db ≡ ok (record c { reused = true }, db))
unfolding commit_found
found_prior q now db c (some prior) h = (prior, refl, h)
found_prior q now db c none h =
    let made = (commit_fresh-IsCommitted q now db db (record c { reused = true }) h).made in
    absurd (let e : true ≡ false = ap (λ (d : ToolCall). d.reused) made in cc)

replay_same :
    (q q' : ToolRequest) (prior : ToolCall) (db : Db) (c : ToolCall)
    → q'.tool_name ≡ q.tool_name
    → q'.arguments_sha256 ≡ q.arguments_sha256
    → replay q prior db ≡ ok (c, db)
    → replay q' prior db ≡ ok (c, db)
unfolding replay
replay_same q q' prior db c same_tool same_arguments h = rw (same_tool, same_arguments) h

-- Once a tool call is committed, a call of the same session with the same key, tool and arguments that
-- passes the checks before the transaction returns its record, marked as reused, and changes nothing,
-- even if it brings another workspace, another result, another event or another job.
pub commit_replayed :
    (q q' : ToolRequest) (now later : ℕ) (db db' : Db) (c : ToolCall)
    → commit_agent_workspace_tool q now db ≡ ok (c, db')
    → q'.session_id ≡ q.session_id
    → q'.idempotency_key ≡ q.idempotency_key
    → q'.tool_name ≡ q.tool_name
    → q'.arguments_sha256 ≡ q.arguments_sha256
    → check_request q' ≡ ok tt
    → commit_agent_workspace_tool q' later db' ≡ ok (record c { reused = true }, db')
unfolding commit_agent_workspace_tool commit_found
commit_replayed q q' now later db db' c h same_session same_key same_tool same_arguments checked =
    let (_, _, found) = >>=-eq-ok (check_request q) _ (commit_once q now later db db' c h) in
    let (prior, there, replays) = found_prior q later db' c _ found in
    let there' : find (call_of q'.session_id q'.idempotency_key) db'.tool_calls ≡ some prior =
      rw (same_session, same_key) there in
    rw checked (
      rw there'
        (replay_same q q' prior db' (record c { reused = true }) same_tool same_arguments replays))
