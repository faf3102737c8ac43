-- ===== src/Jobs/Table/Commit.antt =====
-- The commit of extracted tables among other writers of the session.
use lit_trace.Base.{ℕ, ◌+◌, ◌≤◌, ◌<◌, String, ◌≡◌, Option, some, List, find, if◌then◌else◌}
use lit_trace.StateDb.{SessionRow, AsyncTask, Db, of_session}
use lit_trace.StateDb.Publish.Once.{IsPublished}
use lit_trace.Jobs.Table.{
  TableExecutionOutput, TableLibrary, stale_parsed_ids, is_valid, merge_tables, table_request,
}
use lit_trace.Jobs.Table.Merge.{cells_of}

module _ (lib : TableLibrary) (before between : ℕ → Db → Db) (job : AsyncTask)
    (output : TableExecutionOutput) (ids : List String) (stamp : String) (now : ℕ) where
  -- A merge that was committed: in some attempt, at a revision that no other writer had passed.
  pub record IsMerged (owner : String) (stale : List String) (db' : Db) : Type 0 where
    pub n : ℕ
    pub read : Db
    pub state : SessionRow
    pub seen : find (of_session job.session_id) read.sessions ≡ some state
    pub row : SessionRow
    pub current : find (of_session job.session_id) (between n read).sessions ≡ some row
    pub unpassed : row.revision ≡ state.revision
    pub stale_then :
        stale_parsed_ids lib (lib.validate state.workspace_json) ids output.parsed_sha256 ≡ stale
    pub answer : Option AsyncTask
    pub published :
        IsPublished
          (table_request lib job owner output ids stamp state)
          now
          (between n read)
          db'
          answer
    pub cells :
        (id : String)
        → let ws = lib.validate state.workspace_json in
          cells_of id
            (merge_tables lib ws output
              (is_valid lib ids stale)
              (state.revision + 1)).performance_cells
          ≡ (if is_valid lib ids stale id
              then cells_of id output.performance_cells
              else cells_of id ws.performance_cells)

  abbrev Within : (n left : ℕ) → String → List String → Db → Type 0
  Within n left owner stale db' = (m : IsMerged owner stale db') × (n ≤ m.n) × (m.n < n + left)
