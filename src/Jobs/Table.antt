-- ===== src/Jobs/Table.antt =====
-- table_jobs.py: the merge of extracted tables into a workspace, and the commit that is tried again while
-- other writers advance the session. Validation, dumps and hashes are parameters.
pub mod Merge
pub mod Commit
pub mod Contended
pub mod Samples
use Prim.Native.String
use lit_trace.Base.{
  ℕ, zero, suc, ◌+◌, String, Bool, true, false, not, Option, none, some, List, [], ◌∷◌, ◌++◌, ◌&&◌,
  ◌||◌, ◌==◌, if◌then◌else◌, length, is_none,
}
use lit_trace.Base.Unique.{is_in, first_occurrences}
use lit_trace.Base.Table.{select, exists}
use lit_trace.Base.Sort.{sort_by}
use lit_trace.Base.Words.{text_le}
use lit_trace.Json.{Json, num, str, list, dict, Items, nil, cons, Fields, end, field, get, set}
use lit_trace.StateDb.{
  SessionRow, AsyncTask, Db, Result, ok, err, Error, cas_mismatch, lookup_error,
}
use lit_trace.StateDb.Session.{get_session_state}
use lit_trace.StateDb.Publish.{PublishRequest, commit_async_workspace_result}
use lit_trace.Gateway.{str_items}
use lit_trace.Jobs.Download.{is_falsy}

-- A cell of a table, with its dump.
pub record PerformanceCell : Type 0 where
  pub paper_id : String
  pub dumped : Json

pub record ParsedPaper : Type 0 where
  pub parsed : Bool
  pub dumped : Json

-- The fields of the workspace that the merge reads or writes, and the others.
pub record TableWorkspace : Type 0 where
  pub active_papers : List String
  pub papers : List String
  pub parsed_papers : List (String × ParsedPaper)
  pub performance_cells : List PerformanceCell
  pub structured_artifacts : List Json
  pub workspace_revision : ℕ
  pub others : Fields

pub record TableExecutionOutput : Type 0 where
  pub performance_cells : List PerformanceCell
  pub structured_artifacts : List Json
  pub parsed_sha256 : List (String × String)
  pub harness : Fields

-- Pydantic, `str` and the two hashes.
pub record TableLibrary : Type 0 where
  pub validate : Fields → TableWorkspace
  pub model_dump : TableWorkspace → Fields
  pub str_of : Json → String
  pub model_sha256 : Json → String
  pub workspace_sha256 : Fields → String

-- `d.get(k)`
abbrev pub entry {ℓ} : {A : Type ℓ} → String → List (String × A) → Option A
entry k [] = none
entry k (e ∷ es) = if e.0 == k then some e.1 else entry k es

abbrev pub same_hash : String → Option String → Bool
same_hash h none = false
same_hash h (some g) = h == g

module _ (lib : TableLibrary) where
  open lib use {validate, model_dump, str_of, model_sha256, workspace_sha256}

  -- A paper that was parsed, from the text that the job was given.
  abbrev pub is_current : Option ParsedPaper → Option String → Bool
  is_current none expected = false
  is_current (some p) expected = p.parsed && same_hash (model_sha256 p.dumped) expected

  abbrev pub is_stale : TableWorkspace → List (String × String) → String → Bool
  is_stale ws hashes id =
      not (is_in id ws.active_papers)
      || (not (is_in id ws.papers)
          || not (is_current (entry id ws.parsed_papers) (entry id hashes)))

  unfoldable pub stale_parsed_ids :
      TableWorkspace → List String → List (String × String) → List String
  stale_parsed_ids ws ids hashes = select (is_stale ws hashes) ids

  -- `set(paper_ids) - set(stale_ids)`
  abbrev pub is_valid : (ids stale : List String) → String → Bool
  is_valid ids stale id = is_in id ids && not (is_in id stale)

  -- `str(item.get("paper_id") or "")` of a dict; other values belong to no paper.
  abbrev pub paper_text : Option Json → String
  paper_text none = ""
  paper_text (some (str s)) = s
  paper_text (some v) = if is_falsy v then "" else str_of v

  abbrev pub has_paper : (String → Bool) → Json → Bool
  has_paper p (dict fs) = p (paper_text (get "paper_id" fs))
  has_paper p _ = false

  -- The workspace with the tables of the valid papers.
  unfoldable pub merge_tables :
      TableWorkspace → TableExecutionOutput → (String → Bool) → (revision : ℕ) → TableWorkspace
  merge_tables ws output valid revision = record ws {
    performance_cells =
        select (λ c. not (valid c.paper_id)) ws.performance_cells
        ++ select (λ c. valid c.paper_id) output.performance_cells;
    structured_artifacts =
        select (λ v. not (has_paper valid v)) ws.structured_artifacts
        ++ select (has_paper valid) output.structured_artifacts;
    workspace_revision = revision;
  }

  abbrev pub merged_ids : (ids stale : List String) → List String
  merged_ids ids stale = sort_by text_le (first_occurrences [] (select (is_valid ids stale) ids))

  abbrev pub execution_report :
      TableExecutionOutput → (ids stale : List String) → (revision : ℕ) → Fields
  execution_report output ids stale revision =
      let valid = is_valid ids stale in
      field "performance_cell_count"
        (num (length (select (λ c. valid c.paper_id) output.performance_cells)))
        (field "structured_artifact_count"
          (num (length (select (has_paper valid) output.structured_artifacts)))
          (field "harness" (dict output.harness) (
            field "merged_paper_ids" (list (str_items (merged_ids ids stale))) (
              field "stale_paper_ids" (list (str_items stale))
                (field "committed_revision" (num (revision + 1)) end)))))

  abbrev pub table_event :
      AsyncTask → (ids stale : List String) → (revision : ℕ) → (stamp : String) → Fields
  table_event job ids stale revision stamp = field "type" (str "async_workspace_job_committed") (
      field "task_id" (str job.task_id) (
        field "kind" (str "table_job") (
          field "merged_paper_ids" (list (str_items (merged_ids ids stale))) (
            field "stale_paper_ids" (list (str_items stale)) (
              field "expected_revision" (num revision) (
                field "committed_revision" (num (revision + 1))
                  (field "timestamp" (str stamp) end)))))))

  -- The request of one attempt, from the state that it read.
  abbrev pub table_request :
      AsyncTask
      → (owner : String) → TableExecutionOutput
      → List String
      → (stamp : String) → SessionRow
      → PublishRequest
  table_request job owner output ids stamp state =
      let ws = validate state.workspace_json in
      let stale = stale_parsed_ids ws ids output.parsed_sha256 in
      let new = model_dump (merge_tables ws output (is_valid ids stale) (state.revision + 1)) in
      record {
        session_id = job.session_id;
        task_id = job.task_id;
        lease_owner = owner;
        expected_revision = state.revision;
        workspace_json = new;
        workspace_sha256 = workspace_sha256 new;
        result_json =
            set "execution" (dict (execution_report output ids stale state.revision))
              job.result_json;
        audit_event = table_event job ids stale state.revision stamp;
      }

-- How a commit ends: with the stale papers, or with an exception.
pub data MergeOutcome : Type 0 where
  merged : List String → MergeOutcome
  raised : Error → MergeOutcome
  lost_lease exhausted : MergeOutcome

-- `"CAS mismatch" in str(exc)`
abbrev pub is_cas_mismatch : Error → Bool
is_cas_mismatch (cas_mismatch expected got) = true
is_cas_mismatch _ = false

-- `rest` is what the attempts that are left make of it.
abbrev pub after_commit :
    List String → Db → MergeOutcome × Db → Result (Option AsyncTask × Db) → MergeOutcome × Db
after_commit stale db rest (ok done) = (merged stale, done.1)
after_commit stale db rest (err e) = if is_cas_mismatch e then rest else (raised e, db)

-- What other transactions do before the read of an attempt, and between its read and its commit.
module _ (lib : TableLibrary) (before between : ℕ → Db → Db) (job : AsyncTask)
    (output : TableExecutionOutput) (ids : List String) (stamp : String) (now : ℕ) where
  abbrev pub attempt :
      (owner : String)
      → (read commit : Db) → (rest : MergeOutcome × Db) → Option SessionRow
      → MergeOutcome × Db
  attempt owner read commit rest none = (raised lookup_error, read)
  attempt owner read commit rest (some state) =
      after_commit
        (stale_parsed_ids lib (lib.validate state.workspace_json) ids output.parsed_sha256) commit
        rest
        (commit_async_workspace_result (table_request lib job owner output ids stamp state) now
          commit)

  -- The loop, on the attempts that are left.
  unfoldable pub merge_loop : (owner : String) → (left n : ℕ) → Db → MergeOutcome × Db
  unfolding get_session_state commit_async_workspace_result stale_parsed_ids merge_tables
  merge_loop owner zero n db = (exhausted, db)
  merge_loop owner (suc left) n db =
      let read = before n db in
      let commit = between n read in
      attempt owner read commit (merge_loop owner left (n + 1) commit)
        (get_session_state job.session_id read)

  abbrev pub commit_owned : Option String → Db → MergeOutcome × Db
  commit_owned none db = (lost_lease, db)
  commit_owned (some owner) db = if owner == "" then (lost_lease, db) else merge_loop owner 5 0 db

  -- `_commit_table_output`, with its five attempts.
  unfoldable pub commit_table_output : Db → MergeOutcome × Db
  unfolding merge_loop
  commit_table_output db = commit_owned job.lease_owner db
