-- ===== src/Gateway/Tools.antt =====
-- codex_runtime/gateway.py `_set_download_selection`, `_enqueue_download` and `_commit_workspace_tool`.
use lit_trace.Base.{
  ℕ, ◌+◌, String, Bool, not, Option, none, some, List, [], ◌&&◌, ◌==◌, if◌then◌else◌, ltb, length,
  map,
}
use lit_trace.Base.Unique.{is_in, first_occurrences}
use lit_trace.Base.Table.{exists, select}
use lit_trace.Json.{num, str, bool, list, Fields, end, field, set}
use lit_trace.Context.Papers.{Workspace}
use lit_trace.StateDb.{
  SessionRow, BindingRow, ToolCall, Db, Result, ok, err, value_error, type_error, lookup_error,
  permission_error, ◌>>=◌, ◌>>◌, raise_if,
}
use lit_trace.StateDb.Session.{get_session_state}
use lit_trace.StateDb.Binding.{get_agent_thread_binding_by_thread_id}
use lit_trace.StateDb.Tool.{ToolRequest, commit_agent_workspace_tool}
use lit_trace.Gateway.{
  RawIds, missing, ids, Library, strict_non_negative_int, is_active_binding, set_revision,
  set_selected, str_items, is_key, Mode, mode_of, mode_text, is_clear, new_selection,
  SelectionArguments, Command, require,
}

module _ (lib : Library) where
  open lib use {strip, validate, model_dump, paper_dump, sha256, command_sha256, workspace_sha256}

  abbrev pub session_of : BindingRow → Option SessionRow → Result (BindingRow × Workspace)
  session_of b none = err lookup_error
  session_of b (some state) = ok (b, validate state.workspace_json)

  abbrev pub bound_session : Option BindingRow → Db → Result (BindingRow × Workspace)
  bound_session none db = err permission_error
  bound_session (some b) db = session_of b (get_session_state b.session_id db)

  unfoldable pub load_workspace : (codex_thread_id : String) → Db → Result (BindingRow × Workspace)
  unfolding get_session_state get_agent_thread_binding_by_thread_id
  load_workspace thread db =
      if thread == ""
      then err permission_error
      else bound_session (is_active_binding (get_agent_thread_binding_by_thread_id thread db)) db

  -- The stripped texts that are not empty, each once.
  unfoldable pub clean_ids : List String → List String
  unfolding first_occurrences
  clean_ids raw = first_occurrences [] (select (λ s. not (s == "")) (map strip raw))

  abbrev pub selection_ids : RawIds → Result (List String)
  selection_ids missing = ok []
  selection_ids (ids raw) = ok (clean_ids raw)
  selection_ids _ = err type_error

  abbrev pub active_of : Workspace → List String
  active_of ws = ws.context.active_papers

  abbrev pub previous_of : Workspace → List String
  previous_of ws = select (λ p. is_in p (active_of ws)) ws.context.selected_for_download

  abbrev pub not_active : Workspace → List String → Bool
  not_active ws paper_ids = exists (λ p. not (is_in p (active_of ws))) paper_ids

  abbrev pub selection_command : Mode → List String → ℕ → Fields
  selection_command mode paper_ids expected = field "mode" (str (mode_text mode)) (
      field "paper_ids" (list (str_items paper_ids)) (field "expected_revision" (num expected) end))

  abbrev pub selection_result : BindingRow → String → (previous selected : List String) → ℕ → Fields
  selection_result b key previous selected expected = field "session_id" (str b.session_id) (
      field "tool" (str "set_download_selection") (
        field "idempotency_key" (str key) (
          field "previous_selection" (list (str_items previous)) (
            field "selected_for_download" (list (str_items selected))
              (field "workspace_revision" (num (expected + 1)) end)))))

  -- The command of valid arguments.
  abbrev pub selection_of : BindingRow → Workspace → Mode → ℕ → String → List String → Command
  selection_of b ws mode expected key paper_ids =
      let selected = new_selection mode (previous_of ws) paper_ids in
      record {
        updated = set_revision (expected + 1) (set_selected selected ws);
        tool_name = "set_download_selection";
        idempotency_key = key;
        expected_revision = expected;
        command = selection_command mode paper_ids expected;
        result = selection_result b key (previous_of ws) selected expected;
        async_task = none;
      }

  -- The checks of the arguments, in their order.
  unfoldable pub plan_selection : BindingRow → Workspace → SelectionArguments → Result Command
  unfolding strict_non_negative_int clean_ids new_selection
  plan_selection b ws a = do
    mode ← require (mode_of a.mode)
    expected ← strict_non_negative_int a.expected_revision
    raise_if (not (is_key (strip a.idempotency_key))) value_error
    paper_ids ← selection_ids a.paper_ids
    raise_if (ltb 100 (length paper_ids)) value_error
    raise_if (not (is_clear mode) && not_active ws paper_ids) value_error
    ok (selection_of b ws mode expected (strip a.idempotency_key) paper_ids)

  abbrev pub audit_event : Command → (now : String) → Fields
  audit_event c now = field "type" (str "agent_tool_committed") (
      field "tool" (str c.tool_name) (
        field "idempotency_key" (str c.idempotency_key) (
          field "arguments_sha256" (str (command_sha256 c.command)) (
            field "expected_revision" (num c.expected_revision) (
              field "committed_revision" (num (c.expected_revision + 1))
                (field "timestamp" (str now) end))))))

  abbrev pub request_of : BindingRow → Command → (now : String) → ToolRequest
  request_of b c now = record {
    session_id = b.session_id;
    idempotency_key = c.idempotency_key;
    tool_name = c.tool_name;
    arguments_sha256 = command_sha256 c.command;
    expected_revision = c.expected_revision;
    workspace_json = model_dump c.updated;
    workspace_sha256 = workspace_sha256 (model_dump c.updated);
    result_json = c.result;
    audit_event = audit_event c now;
    async_task = c.async_task;
  }

  abbrev pub reply_of : ToolCall → Fields
  reply_of call = set "idempotency_reused" (bool call.reused) call.result_json

  -- `stamp` is the time as the audit event writes it, and `now` that of the database.
  unfoldable pub commit_workspace_tool :
      BindingRow → (stamp : String) → (now : ℕ) → Command → Db → Result (Fields × Db)
  unfolding commit_agent_workspace_tool
  commit_workspace_tool b stamp now c db = do
    done ← commit_agent_workspace_tool (request_of b c stamp) now db
    ok (reply_of done.0, done.1)

  -- `call` for the tool `set_download_selection`.
  unfoldable pub set_download_selection :
      (codex_thread_id : String)
      → SelectionArguments
      → (stamp : String) → (now : ℕ) → Db
      → Result (Fields × Db)
  unfolding load_workspace plan_selection commit_workspace_tool
  set_download_selection thread a stamp now db = do
    loaded ← load_workspace thread db
    c ← plan_selection loaded.0 loaded.1 a
    commit_workspace_tool loaded.0 stamp now c db
