-- ===== src/Gateway/Samples.antt =====
-- The theorems about the tools of the agent at concrete calls.
use lit_trace.Base.{Option, some, String, ◌≡◌, refl, true, none, [], ◌∷◌, find}
use lit_trace.Base.Unique.{first_occurrences, IsUnique}
use lit_trace.Base.Words.{is_blank, is_space}
use lit_trace.Base.Table.{update, select, exists}
use lit_trace.Json.{
  Json, null, str, list, Fields, end, field, dict, num, bool, set, sanitize_json_value,
}
use lit_trace.Json.Dicts.{get-set_self}
use lit_trace.Context.{Paper}
use lit_trace.Context.Papers.{Workspace}
use lit_trace.StateDb.{BindingRow, Db, Result, ok, err, is_frozen}
use lit_trace.StateDb.Session.{get_session_state}
use lit_trace.StateDb.Binding.{get_agent_thread_binding_by_thread_id}
use lit_trace.StateDb.Trail.{
  ensure_chat_trail, ensure_session, ensure_trail, append_recent, update_trail,
}
use lit_trace.StateDb.Tool.{
  commit_agent_workspace_tool, commit_found, commit_fresh, check_request, check_task, check_session,
  write_workspace, insert_task, call_of,
}
use lit_trace.StateDb.Samples.{db, busy_binding}
use lit_trace.Gateway.{
  str_items, integer, ids, Library, strict_non_negative_int, new_selection, SelectionArguments,
}
use lit_trace.Gateway.Tools.{
  load_workspace, clean_ids, plan_selection, commit_workspace_tool, set_download_selection,
}
use lit_trace.Gateway.Enqueue.{DownloadArguments, enqueue_download}
use lit_trace.Gateway.Commit.{IsSelected, set_download_selection-IsSelected}
use lit_trace.Gateway.Again.{KeepsRevision, set_download_selection-again}

abbrev pub paper : Paper
paper = record {
  paper_id = "p1";
  title = "A paper";
  journal = none;
  publisher = none;
  doi = none;
  source_urls = [];
  pdf_url = none;
}

abbrev pub loaded : Workspace
loaded = record {
  context = record {
    visible_to_user = true;
    active_papers = "p1" ∷ "p2" ∷ [];
    excluded_papers = [];
    pinned_papers = [];
    importance_levels = [];
    selected_for_download = "p2" ∷ [];
    filters = field "workspace_revision" (num 3) end;
  };
  papers = paper ∷ [];
  source_records = [];
  canonical_works = [];
  resolution_decisions = [];
}

abbrev pub text_or_null : Option String → Json
text_or_null none = null
text_or_null (some s) = str s

-- The dump of a paper.
abbrev pub paper_fields : Paper → Fields
paper_fields p = field "paper_id" (str p.paper_id) (
    field "title" (str p.title) (
      field "journal" (text_or_null p.journal) (
        field "publisher" (text_or_null p.publisher) (
          field "doi" (text_or_null p.doi) (
            field "source_urls" (list (str_items p.source_urls))
              (field "pdf_url" (text_or_null p.pdf_url) end))))))

-- The dump of a workspace, as far as its filters.
abbrev pub lib : Library
lib = record {
  strip = λ s. s;
  validate = λ w. loaded;
  model_dump = λ ws. field "context" (dict (field "filters" (dict ws.context.filters) end)) end;
  paper_dump = paper_fields;
  sha256 = λ s. "0";
  decimal = λ n. "3";
  command_sha256 = λ c. "c";
  workspace_sha256 = λ w. "w";
}

lib-KeepsRevision : KeepsRevision lib
lib-KeepsRevision n ws = get-set_self "workspace_revision" (num n) ws.context.filters

-- The binding as the query reads it.
abbrev pub binding : BindingRow
binding = record busy_binding { turn_count = 0; last_total_tokens = 0; last_compacted_at = none }

abbrev pub bound : Db
bound = record db { bindings = busy_binding ∷ [] }

abbrev arguments : SelectionArguments
arguments = record {
  mode = "add";
  expected_revision = integer 3;
  idempotency_key = "selection-1";
  paper_ids = ids ("p1" ∷ "p2" ∷ []);
}

abbrev reply_of_result : Result (Fields × Db) → Fields
reply_of_result (ok (r, d)) = r
reply_of_result (err e) = end

abbrev pub db_of_result : Result (Fields × Db) → Db
db_of_result (ok (r, d)) = d
db_of_result (err e) = bound

abbrev answered : Result (Fields × Db)
answered = set_download_selection lib "th1" arguments "now" 10 bound

loads : load_workspace lib "th1" bound ≡ ok (binding, loaded)
unfolding load_workspace get_session_state get_agent_thread_binding_by_thread_id find
loads = refl

selects :
    set_download_selection lib "th1" arguments "now" 10 bound
    ≡ ok (reply_of_result answered, db_of_result answered)
unfolding set_download_selection load_workspace plan_selection commit_workspace_tool
    get_session_state get_agent_thread_binding_by_thread_id strict_non_negative_int clean_ids
    new_selection first_occurrences select exists commit_agent_workspace_tool commit_found
    commit_fresh check_request check_task is_blank is_space check_session write_workspace
    insert_task ensure_chat_trail ensure_session ensure_trail append_recent update_trail find update
    is_frozen sanitize_json_value
selects = refl

loads_again :
    load_workspace lib "th1" (db_of_result answered)
    ≡ ok (record binding { workspace_revision = 4; updated_at = 10 }, loaded)
unfolding set_download_selection load_workspace plan_selection commit_workspace_tool
    get_session_state get_agent_thread_binding_by_thread_id strict_non_negative_int clean_ids
    new_selection first_occurrences select exists commit_agent_workspace_tool commit_found
    commit_fresh check_request check_task is_blank is_space check_session write_workspace
    insert_task ensure_chat_trail ensure_session ensure_trail append_recent update_trail find update
    is_frozen sanitize_json_value
loads_again = refl

set_download_selection-again_example :
    set_download_selection lib "th1" arguments "later" 99 (db_of_result answered)
    ≡ ok (set "idempotency_reused" (bool true) (reply_of_result answered), db_of_result answered)
set_download_selection-again_example =
    set_download_selection-again lib "th1" arguments "now" "later" 10 99 bound
      (db_of_result answered) (reply_of_result answered) binding
      (record binding { workspace_revision = 4; updated_at = 10 }) loaded loaded lib-KeepsRevision
      selects loads loads_again refl refl

loaded-IsUnique : IsUnique loaded.context.selected_for_download
loaded-IsUnique = (refl, tt)

new_key : (k : String) → find (call_of "s1" k) bound.tool_calls ≡ none
unfolding find
new_key k = refl

set_download_selection-IsSelected_example :
    IsSelected lib arguments binding loaded bound (db_of_result answered)
set_download_selection-IsSelected_example =
    set_download_selection-IsSelected lib "th1" arguments "now" 10 bound (db_of_result answered)
      (reply_of_result answered) binding loaded selects loads loaded-IsUnique
      (new_key "selection-1")

abbrev pub download : DownloadArguments
download = record {
  expected_revision = integer 3;
  idempotency_key = "download-1";
  target = "";
  paper_ids = ids ("p1" ∷ []);
}

abbrev pub enqueued : Result (Fields × Db)
enqueued = enqueue_download lib "th1" download "now" 10 bound
