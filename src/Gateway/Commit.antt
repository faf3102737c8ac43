-- ===== src/Gateway/Commit.antt =====
-- The effect of a selection command on the session, and its retry.
use lit_trace.Base.{ℕ, ◌+◌, String, ◌≡◌, refl, ◌∙◌, ap, none, some, arith, find}
use lit_trace.Base.Unique.{is_in, IsUnique, IsWithin, is_in-select, select-IsUnique}
use lit_trace.Json.{Fields, jsonb}
use lit_trace.Context.Papers.{Workspace}
use lit_trace.StateDb.{SessionRow, BindingRow, ToolCall, Db, ok, ◌>>=◌, >>=-eq-ok, of_session}
use lit_trace.StateDb.Tool.{call_of, set_workspace, commit_agent_workspace_tool}
use lit_trace.StateDb.Tool.Commit.{IsAdvanced, commit-IsAdvanced}
use lit_trace.Gateway.{Library, SelectionArguments, Command}
use lit_trace.Gateway.Tools.{
  load_workspace, previous_of, selection_of, plan_selection, request_of, reply_of,
  commit_workspace_tool, set_download_selection,
}
use lit_trace.Gateway.Selected.{
  IsPlanned, plan_selection-IsPlanned, new_selection-IsWithin, new_selection-IsUnique,
  not_active-IsWithin,
}

pub commit_workspace_tool-call :
    (lib : Library) (b : BindingRow) (stamp : String) (now : ℕ) (c : Command) (db db' : Db)
    (reply : Fields)
    → commit_workspace_tool lib b stamp now c db ≡ ok (reply, db')
    → (call : ToolCall) × (commit_agent_workspace_tool (request_of lib b c stamp) now db
        ≡ ok (call, db'))
      × (reply ≡ reply_of lib call)
unfolding commit_workspace_tool
commit_workspace_tool-call lib b stamp now c db db' reply h =
    let (done, e, k) =
      >>=-eq-ok (commit_agent_workspace_tool (request_of lib b c stamp) now db) _ h in
    let same : done.1 ≡ db' = ground arith in
    (done.0, e ∙ ap (λ d. ok (done.0, d)) same, ground arith)

module _ (lib : Library) (a : SelectionArguments) (b : BindingRow) (ws : Workspace)
    (db db' : Db) where
  -- The session after a selection command: one revision on, with a selection of active papers, each once.
  pub record IsSelected : Type 0 where
    pub updated : Workspace
    pub row : SessionRow
    pub row' : SessionRow
    pub before : find (of_session b.session_id) db.sessions ≡ some row
    pub after : find (of_session b.session_id) db'.sessions ≡ some row'
    pub advanced : row'.revision ≡ row.revision + 1
    pub stored : row'.workspace_json ≡ jsonb (lib.model_dump updated)
    pub same_active : updated.context.active_papers ≡ ws.context.active_papers
    pub within : IsWithin updated.context.selected_for_download updated.context.active_papers
    pub unique : IsUnique updated.context.selected_for_download

  planned-IsSelected :
      (stamp : String) (now : ℕ) (c : Command) (call : ToolCall)
      → IsPlanned lib b ws a c
      → IsUnique ws.context.selected_for_download
      → IsAdvanced (request_of lib b c stamp) now db db' call
      → IsSelected
  planned-IsSelected stamp now c call p u s =
      let m = selection_of lib b ws p.mode p.expected p.key p.paper_ids in
      let previous = previous_of lib ws in
      record {
        updated = c.updated;
        row = s.row;
        row' =
            set_workspace (lib.model_dump c.updated)
              (lib.workspace_sha256 (lib.model_dump c.updated)) (c.expected_revision + 1) now s.row;
        before = s.before;
        after = s.after;
        advanced = omega (arith, s.at_expected);
        stored = refl;
        same_active = ap (λ (d : Command). d.updated.context.active_papers) p.made;
        within = rw p.made (
            new_selection-IsWithin ws.context.active_papers previous p.paper_ids p.mode
              (λ x k.
                (is_in-select (λ q. is_in q ws.context.active_papers) x
                  ws.context.selected_for_download k).1)
              (λ k. not_active-IsWithin lib ws p.paper_ids (p.active k)));
        unique = rw p.made (
            new_selection-IsUnique ws.context.active_papers previous p.paper_ids p.mode
              (select-IsUnique _ ws.context.selected_for_download u) p.unique);
      }

key_of_plan :
    (lib : Library) (b : BindingRow) (ws : Workspace) (a : SelectionArguments) (c : Command)
    → IsPlanned lib b ws a c
    → c.idempotency_key ≡ lib.strip a.idempotency_key
key_of_plan lib b ws a c p = ap (λ (d : Command). d.idempotency_key) p.made ∙ p.keyed

-- A selection command that succeeds for a thread, under a key that the session has not used, takes the
-- session of the thread to its next revision; the workspace that is stored has the same active papers,
-- and its selection for download has no paper twice and active papers only, if the selection before had
-- no paper twice.
pub set_download_selection-IsSelected :
    (lib : Library) (thread : String) (a : SelectionArguments) (stamp : String) (now : ℕ)
    (db db' : Db) (reply : Fields) (b : BindingRow) (ws : Workspace)
    → set_download_selection lib thread a stamp now db ≡ ok (reply, db')
    → load_workspace lib thread db ≡ ok (b, ws)
    → IsUnique ws.context.selected_for_download
    → find (call_of b.session_id (lib.strip a.idempotency_key)) db.tool_calls ≡ none
    → IsSelected lib a b ws db db'
unfolding set_download_selection
set_download_selection-IsSelected lib thread a stamp now db db' reply b ws h loaded u new =
    let h₁ : (plan_selection lib b ws a >>= λ c. commit_workspace_tool lib b stamp now c db)
        ≡ ok (reply, db') =
      rw (set_download_selection, loaded) at h in
    let (c, planned, h₂) = >>=-eq-ok (plan_selection lib b ws a) _ h₁ in
    let (call, committed, _) = commit_workspace_tool-call lib b stamp now c db db' reply h₂ in
    let p = plan_selection-IsPlanned lib b ws a c planned in
    planned-IsSelected lib a b ws db db' stamp now c call p u (
      commit-IsAdvanced (request_of lib b c stamp) now db db' call committed
        (rw (key_of_plan lib b ws a c p) new))
