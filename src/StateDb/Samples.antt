-- ===== src/StateDb/Samples.antt =====
-- A small database, and the theorems about state_db.py and the save path of session.py at concrete calls.
use lit_trace.Base.{ℕ, ◌≡◌, refl, false, none, some, [], ◌∷◌, find, exists}
use lit_trace.Base.Table.{update}
use lit_trace.Json.{Fields, end, field, dict, num, str}
use lit_trace.StateDb.{
  SessionRow, active, AsyncTask, running, BindingRow, Db, empty_db, Result, ok, err, after,
  cas_mismatch, of_session, binding_of, is_archived,
}
use lit_trace.StateDb.Trail.{append_chat_message}
use lit_trace.StateDb.Trail.Cap.{append_chat_message-IsAppended, IsAppended}
use lit_trace.StateDb.Session.{save_workspace}
use lit_trace.StateDb.Session.Save.{HasOneRow, save_race}
use lit_trace.StateDb.Binding.{
  run_turn, turn_on, record_turn, get_agent_thread_binding, row_to_agent_thread_binding,
  upsert_agent_thread_binding,
}
use lit_trace.StateDb.Binding.Turns.{run_turn_forgets}

abbrev pub workspace_at : ℕ → Fields
workspace_at n =
    field "context" (dict (field "filters" (dict (field "workspace_revision" (num n) end)) end)) end

abbrev pub session : SessionRow
session = record {
  session_id = "s1";
  workspace_sha256 = none;
  workspace_json = workspace_at 3;
  manifest_json = field "revision" (num 3) end;
  artifact_index_json = end;
  memory_view_json = end;
  rag_profile_json = end;
  revision = 3;
  status = active;
  created_at = 1;
  updated_at = 2;
}

abbrev pub task : AsyncTask
task = record {
  task_id = "t1";
  session_id = "s1";
  kind = "parse_job";
  artifact_id = "a1";
  event_type = "";
  profile_id = "";
  source_revision = "";
  content_sha256 = "";
  status = running;
  attempt_count = 1;
  next_attempt_at = none;
  last_heartbeat_at = some 4;
  lease_owner = some "w1";
  lease_expires_at = some 400;
  last_error = none;
  result_json = end;
  created_at = 1;
  updated_at = 4;
  completed_at = none;
}

abbrev pub db : Db
db = record empty_db { sessions = session ∷ []; tasks = task ∷ [] }

there : find (of_session "s1") db.sessions ≡ some session
unfolding find
there = refl

not_archived : is_archived session.status ≡ false
unfolding is_archived
not_archived = refl

one_row : HasOneRow "s1" db.sessions
unfolding exists
one_row = (λ e. refl, tt)

save_race_example :
    save_workspace session 3 21 (after db (save_workspace session 3 20 db)) ≡ err (cas_mismatch 3 4)
save_race_example =
    save_race session session 3 20 21 db session one_row there not_archived refl refl

append_chat_message_example :
    (db' : Db) × (append_chat_message "s1" (field "text" (str "hello") end) 9 db ≡ ok db')
    × IsAppended "s1" (field "text" (str "hello") end) db db'
append_chat_message_example =
    append_chat_message-IsAppended "s1" (field "text" (str "hello") end) 9 db tt

abbrev pub busy_binding : BindingRow
busy_binding = record {
  session_id = "s1";
  codex_thread_id = "th1";
  runtime_kind = "codex";
  runtime_version = none;
  workspace_revision = 3;
  status = "active";
  last_error = none;
  turn_count = 41;
  last_total_tokens = 90000;
  last_compacted_at = some 5;
  created_at = 1;
  updated_at = 5;
}

abbrev busy : Db
busy = record db { bindings = busy_binding ∷ [] }

busy_there : find (binding_of "s1") busy.bindings ≡ some busy_binding
unfolding find
busy_there = refl

abbrev or_before : Db → Result Db → Db
or_before old (ok new) = new
or_before old (err e) = old

abbrev turned : Db
turned = or_before busy (run_turn "s1" 4 95000 50 busy)

busy_turn : run_turn "s1" 4 95000 50 busy ≡ ok turned
unfolding run_turn turn_on record_turn get_agent_thread_binding row_to_agent_thread_binding
    upsert_agent_thread_binding find exists update
busy_turn = refl

run_turn_forgets_example :
    (b' : BindingRow) × (find (binding_of "s1") turned.bindings ≡ some b')
    × (b'.turn_count ≡ 1)
    × (b'.last_total_tokens ≡ 95000)
    × (b'.last_compacted_at ≡ none)
run_turn_forgets_example =
    run_turn_forgets "s1" 4 95000 50 busy turned busy_binding busy_there busy_turn
