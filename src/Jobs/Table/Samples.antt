-- ===== src/Jobs/Table/Samples.antt =====
-- The theorems about the table jobs among other writers of a small database.
use lit_trace.Base.{ℕ, zero, suc, ◌+◌, ◌≡◌, refl, true, [], ◌∷◌, find, exists}
use lit_trace.Base.Table.{update, select}
use lit_trace.Base.Unique.{first_occurrences}
use lit_trace.Base.Sort.{sort_by, insert_by}
use lit_trace.Base.Words.{is_blank, is_space}
use lit_trace.Json.{end, str, null, sanitize_json_value}
use lit_trace.StateDb.{Db, of_session, is_frozen}
use lit_trace.StateDb.Session.{get_session_state}
use lit_trace.StateDb.Trail.{
  ensure_chat_trail, ensure_session, ensure_trail, append_recent, update_trail,
}
use lit_trace.StateDb.Tool.{check_session, write_workspace}
use lit_trace.StateDb.Publish.{commit_async_workspace_result, check_publish, check_lease}
use lit_trace.StateDb.Samples.{task, db, workspace_at}
use lit_trace.Jobs.Table.{
  TableWorkspace, TableExecutionOutput, TableLibrary, MergeOutcome, exhausted, stale_parsed_ids,
  merge_tables, merge_loop, commit_table_output,
}
use lit_trace.Jobs.Table.Contended.{IsContended, commit_table_output-IsContended}

abbrev workspace : TableWorkspace
workspace = record {
  active_papers = "p1" ∷ "p2" ∷ [];
  papers = "p1" ∷ "p2" ∷ [];
  parsed_papers = ("p1", record { parsed = true; dumped = null }) ∷ [];
  performance_cells =
      record { paper_id = "p1"; dumped = str "old" }
      ∷ record { paper_id = "p2"; dumped = null }
      ∷ [];
  structured_artifacts = [];
  workspace_revision = 3;
  others = end;
}

abbrev tables : TableLibrary
tables = record {
  validate = λ w. workspace;
  model_dump = λ ws. workspace_at ws.workspace_revision;
  str_of = λ v. "";
  model_sha256 = λ v. "h1";
  workspace_sha256 = λ w. "w";
}

-- The second paper is not parsed any more.
abbrev output : TableExecutionOutput
output = record {
  performance_cells = record { paper_id = "p1"; dumped = str "new" } ∷ [];
  structured_artifacts = [];
  parsed_sha256 = ("p1", "h1") ∷ ("p2", "h2") ∷ [];
  harness = end;
}

abbrev advance : Db → Db
advance d = record d {
  sessions = update (of_session "s1") (λ r. record r { revision = r.revision + 1 }) d.sessions;
}

-- Another writer commits in the first attempt, and in every attempt.
abbrev once : ℕ → Db → Db
once zero d = advance d
once (suc n) d = d

abbrev always : ℕ → Db → Db
always n d = advance d

abbrev quiet : ℕ → Db → Db
quiet n d = d

abbrev db_of : MergeOutcome × Db → Db
db_of s = s.1

abbrev merges : Db
merges = db_of (commit_table_output tables quiet once task output ("p1" ∷ "p2" ∷ []) "now" 20 db)

abbrev contested : Db
contested = db_of (commit_table_output tables quiet always task output ("p1" ∷ []) "now" 20 db)

contested_gives_up :
    commit_table_output tables quiet always task output ("p1" ∷ []) "now" 20 db
    ≡ (exhausted, contested)
unfolding commit_table_output merge_loop get_session_state stale_parsed_ids merge_tables select
    first_occurrences sort_by insert_by commit_async_workspace_result check_publish check_lease
    is_blank is_space check_session write_workspace ensure_chat_trail ensure_session ensure_trail
    append_recent update_trail find exists update is_frozen sanitize_json_value
contested_gives_up = refl

commit_table_output-IsContended_example :
    IsContended tables quiet always task output ("p1" ∷ []) "now" 20 5 0 db
commit_table_output-IsContended_example =
    commit_table_output-IsContended tables quiet always task output ("p1" ∷ []) "now" 20 db
      contested contested_gives_up
