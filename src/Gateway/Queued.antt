-- ===== src/Gateway/Queued.antt =====
-- The job that a download command puts in the queue.
use lit_trace.Base.{is_empty, ℕ, ◌≤◌, String, ◌≡◌, true, false, List, [], ◌∷◌, ◌++◌, ltb, length}
use lit_trace.Base.Unique.{IsWithin}
use lit_trace.Json.{Items, jsonb}
use lit_trace.Context.Papers.{Workspace}
use lit_trace.StateDb.{BindingRow, Db, ok}
use lit_trace.Gateway.{Library, Command}
use lit_trace.Gateway.Tools.{not_active}
use lit_trace.Gateway.Enqueue.{
  DownloadArguments, is_target, target_of, download_ids, papers_of, download_task, download_of,
}

-- A planned download command, and the checks that it passed.
record IsPlanned (lib : Library) (b : BindingRow) (ws : Workspace) (a : DownloadArguments) (now : ℕ)
    (c : Command) : Type 0 where
  pub expected : ℕ
  pub paper_ids : List String
  pub papers : Items
  pub asked : download_ids lib ws a.paper_ids ≡ ok paper_ids
  pub dumped : papers_of lib paper_ids ws ≡ ok papers
  pub made :
      c
      ≡ download_of lib b ws
          (lib.strip a.idempotency_key)
          paper_ids
          (target_of a.target)
          expected
          papers
          now
  pub some_ids : is_empty paper_ids ≡ false
  pub few : ltb 100 (length paper_ids) ≡ false
  pub allowed : is_target (target_of a.target) ≡ true
  pub active : not_active lib ws paper_ids ≡ false

module _ (lib : Library) (a : DownloadArguments) (b : BindingRow) (ws : Workspace) (now : ℕ)
    (db db' : Db) where
  -- The queue after a download command.
  pub record IsQueued : Type 0 where
    pub expected : ℕ
    pub paper_ids : List String
    pub papers : Items
    pub asked : download_ids lib ws a.paper_ids ≡ ok paper_ids
    pub dumped : papers_of lib paper_ids ws ≡ ok papers
    pub some_ids : is_empty paper_ids ≡ false
    pub few : length paper_ids ≤ 100
    pub allowed : is_target (target_of a.target) ≡ true
    pub active : IsWithin paper_ids ws.context.active_papers
    pub queue :
        let t =
          download_task lib b
            (lib.strip a.idempotency_key)
            paper_ids
            (target_of a.target)
            expected
            papers
            now in
        db'.tasks ≡ db.tasks ++ record t { result_json = jsonb t.result_json } ∷ []
