-- ===== src/StateDb/Tool/Samples.antt =====
-- The theorems about the commits of tool calls at a small database.
use lit_trace.Base.{◌≡◌, refl, true, none, find, exists}
use lit_trace.Base.Table.{update}
use lit_trace.Base.Words.{is_blank, is_space}
use lit_trace.Json.{end, field, str, sanitize_json_value}
use lit_trace.StateDb.{Db, ok, err, after, cas_mismatch, is_frozen}
use lit_trace.StateDb.Trail.{
  ensure_chat_trail, ensure_session, ensure_trail, append_recent, update_trail,
}
use lit_trace.StateDb.Tool.{
  ToolRequest, commit_agent_workspace_tool, commit_found, commit_fresh, check_request, check_task,
  check_session, write_workspace, insert_task, call_row, call_of,
}
use lit_trace.StateDb.Tool.Once.{commit_once}
use lit_trace.StateDb.Tool.Commit.{commit_race}
use lit_trace.StateDb.Samples.{db, workspace_at}

abbrev request : ToolRequest
request = record {
  session_id = "s1";
  idempotency_key = "k1";
  tool_name = "pin_papers";
  arguments_sha256 = "abc";
  expected_revision = 3;
  workspace_json = workspace_at 4;
  workspace_sha256 = "def";
  result_json = end;
  audit_event = field "event" (str "pin") end;
  async_task = none;
}

abbrev committed : Db
committed = after db (commit_agent_workspace_tool request 10 db)

request_commits : commit_agent_workspace_tool request 10 db ≡ ok (call_row request 10, committed)
unfolding commit_agent_workspace_tool commit_found commit_fresh check_request check_task is_blank
    is_space check_session write_workspace insert_task ensure_chat_trail ensure_session ensure_trail
    append_recent update_trail find exists update is_frozen sanitize_json_value
request_commits = refl

-- A call run again with its arguments.
commit_once_example :
    commit_agent_workspace_tool request 99 committed
    ≡ ok (record (call_row request 10) { reused = true }, committed)
commit_once_example = commit_once request 10 99 db committed (call_row request 10) request_commits

new_key : find (call_of "s1" "k1") db.tool_calls ≡ none
unfolding find
new_key = refl

abbrev rival : ToolRequest
rival = record request { idempotency_key = "k2" }

rival_checked : check_request rival ≡ ok tt
unfolding check_request check_task is_blank is_space
rival_checked = refl

rival_key : find (call_of "s1" "k2") committed.tool_calls ≡ none
unfolding commit_agent_workspace_tool commit_found commit_fresh check_request check_task is_blank
    is_space check_session write_workspace insert_task ensure_chat_trail ensure_session ensure_trail
    append_recent update_trail find exists update is_frozen sanitize_json_value
rival_key = refl

commit_race_example : commit_agent_workspace_tool rival 11 committed ≡ err (cas_mismatch 3 4)
commit_race_example =
    commit_race request rival 10 11 db committed (call_row request 10) request_commits new_key refl
      refl rival_checked rival_key
