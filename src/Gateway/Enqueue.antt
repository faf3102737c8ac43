-- ===== src/Gateway/Enqueue.antt =====
-- codex_runtime/gateway.py `_enqueue_download`: a job for the papers of the workspace, in the transaction
-- of the command.
use Prim.Native.String
use lit_trace.Base.{
  is_empty, ℕ, ◌+◌, String, Bool, not, none, some, List, [], ◌∷◌, ◌==◌, ◌||◌, if◌then◌else◌, ltb,
  length, join, first_chars, find,
}
use lit_trace.Json.{Json, num, str, list, dict, Items, nil, cons, Fields, end, field}
use lit_trace.Context.Papers.{Workspace}
use lit_trace.StateDb.{
  BindingRow, AsyncTask, queued, Db, Result, ok, err, value_error, type_error, lookup_error, ◌>>=◌,
  ◌>>◌, raise_if,
}
use lit_trace.Gateway.{
  RawInt, RawIds, not_a_list, ids, Library, strict_non_negative_int, set_revision, str_items,
  is_key, Command,
}
use lit_trace.Gateway.Tools.{load_workspace, clean_ids, not_active, commit_workspace_tool}

pub record DownloadArguments : Type 0 where
  pub expected_revision : RawInt
  pub idempotency_key : String
  pub target : String
  pub paper_ids : RawIds

-- `str(…) or "local_and_storage"`
abbrev pub target_of : String → String
target_of t = if t == "" then "local_and_storage" else t

abbrev pub is_target : String → Bool
is_target t = t == "local_and_storage" || t == "storage_only"

module _ (lib : Library) where
  open lib use {strip, paper_dump, sha256, decimal, command_sha256}

  abbrev pub download_ids : Workspace → RawIds → Result (List String)
  download_ids ws (ids raw) = ok (clean_ids lib raw)
  download_ids ws not_a_list = err type_error
  download_ids ws _ = ok ws.context.selected_for_download

  -- `workspace.papers[id]`, which raises for an active paper that the workspace does not hold.
  abbrev pub paper_of : String → Workspace → Result Json
  paper_of id ws = elim (find (λ p. p.paper_id == id) ws.papers) [
    | none ↦ err lookup_error
    | some p ↦ ok (dict (paper_dump p))
  ]

  unfoldable pub papers_of : List String → Workspace → Result Items
  papers_of [] ws = ok nil
  papers_of (id ∷ rest) ws = do p ← paper_of id ws; more ← papers_of rest ws; ok (cons p more)

  abbrev pub download_command : List String → String → ℕ → Fields → Fields
  download_command paper_ids target expected more =
      field "paper_ids" (list (str_items paper_ids))
        (field "target" (str target) (field "expected_revision" (num expected) more))

  abbrev pub task_digest : BindingRow → String → String
  task_digest b key =
      first_chars 32 (sha256 (join (b.session_id ∷ "\0enqueue_download\0" ∷ key ∷ [])))

  abbrev pub download_task :
      BindingRow → String → List String → String → ℕ → Items → (now : ℕ) → AsyncTask
  download_task b key paper_ids target expected papers now = record {
    task_id = String.◌++◌ "download:" (task_digest b key);
    session_id = b.session_id;
    kind = "download_job";
    artifact_id = String.◌++◌ "download_batch:" (task_digest b key);
    event_type = "download_requested";
    profile_id = "";
    source_revision = decimal expected;
    content_sha256 = command_sha256 (download_command paper_ids target expected end);
    status = queued;
    attempt_count = 0;
    next_attempt_at = none;
    last_heartbeat_at = none;
    lease_owner = none;
    lease_expires_at = none;
    last_error = none;
    result_json = field "schema_version" (str "littrace.download_job.v1") (
        field "command"
          (dict (download_command paper_ids target expected (field "papers" (list papers) end)))
          end);
    created_at = now;
    updated_at = now;
    completed_at = none;
  }

  abbrev pub download_result : BindingRow → String → List String → String → ℕ → Fields
  download_result b key paper_ids target expected = field "session_id" (str b.session_id) (
      field "tool" (str "enqueue_download") (
        field "idempotency_key" (str key) (
          field "task_id" (str (String.◌++◌ "download:" (task_digest b key))) (
            field "status" (str "queued") (
              field "paper_ids" (list (str_items paper_ids)) (
                field "target" (str target)
                  (field "workspace_revision" (num (expected + 1)) end)))))))

  abbrev pub download_of :
      BindingRow → Workspace → String → List String → String → ℕ → Items → (now : ℕ) → Command
  download_of b ws key paper_ids target expected papers now = record {
    updated = set_revision (expected + 1) ws;
    tool_name = "enqueue_download";
    idempotency_key = key;
    expected_revision = expected;
    command = download_command paper_ids target expected end;
    result = download_result b key paper_ids target expected;
    async_task = some (download_task b key paper_ids target expected papers now);
  }

  -- The checks of the arguments, in their order, and the dump of the papers.
  unfoldable pub plan_download :
      BindingRow → Workspace → DownloadArguments → (now : ℕ) → Result Command
  unfolding strict_non_negative_int clean_ids papers_of
  plan_download b ws a now = do
    expected ← strict_non_negative_int a.expected_revision
    raise_if (not (is_key (strip a.idempotency_key))) value_error
    raise_if (not (is_target (target_of a.target))) value_error
    paper_ids ← download_ids ws a.paper_ids
    raise_if (is_empty paper_ids) value_error
    raise_if (ltb 100 (length paper_ids)) value_error
    raise_if (not_active lib ws paper_ids) value_error
    papers ← papers_of paper_ids ws
    ok (
        download_of b ws (strip a.idempotency_key) paper_ids (target_of a.target) expected papers
          now)

  -- `call` for the tool `enqueue_download`.
  unfoldable pub enqueue_download :
      (codex_thread_id : String)
      → DownloadArguments
      → (stamp : String) → (now : ℕ) → Db
      → Result (Fields × Db)
  unfolding load_workspace plan_download commit_workspace_tool
  enqueue_download thread a stamp now db = do
    loaded ← load_workspace lib thread db
    c ← plan_download loaded.0 loaded.1 a now
    commit_workspace_tool lib loaded.0 stamp now c db
