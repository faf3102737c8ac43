-- ===== src/Gateway/Again.antt =====
-- A selection command that is sent again.
use lit_trace.Base.{ℕ, ◌+◌, String, ◌≡◌, refl, sym, ◌∙◌, ap, true, false, none, some, arith, nat_eq}
use lit_trace.Base.Words.{is_blank}
use lit_trace.Json.{num, bool, Fields, set}
use lit_trace.Json.Dicts.{set_twice}
use lit_trace.Context.Papers.{Workspace}
use lit_trace.StateDb.{BindingRow, ToolCall, Db, ok, value_error, ◌>>=◌, >>=-eq-ok, raise_if}
use lit_trace.StateDb.Tool.{
  serialized_revision, check_task, check_request, commit_agent_workspace_tool,
}
use lit_trace.StateDb.Tool.Replay.{commit_replayed}
use lit_trace.Gateway.{
  Library, SelectionArguments, Command, set_revision, set_selected, new_selection,
}
use lit_trace.Gateway.Tools.{
  load_workspace, previous_of, selection_of, plan_selection, request_of, reply_of,
  commit_workspace_tool, set_download_selection,
}
use lit_trace.Gateway.Selected.{IsPlanned, plan_selection-IsPlanned}
use lit_trace.Gateway.Commit.{commit_workspace_tool-call}

-- The dump of a workspace tells its revision, as the transaction reads it.
abbrev pub KeepsRevision : Library → Type 0
KeepsRevision lib =
    (n : ℕ) (ws : Workspace)
    → serialized_revision (lib.model_dump (set_revision n ws)) ≡ some (num n)

-- The key of a request that was committed is not blank.
committed_key :
    (lib : Library) (b : BindingRow) (c : Command) (stamp : String) (now : ℕ) (db db' : Db)
    (call : ToolCall)
    → commit_agent_workspace_tool (request_of lib b c stamp) now db ≡ ok (call, db')
    → is_blank c.idempotency_key ≡ false
unfolding commit_agent_workspace_tool check_request
committed_key lib b c stamp now db db' call h =
    let (_, checked, _) = >>=-eq-ok (check_request (request_of lib b c stamp)) _ h in
    let (_, e, _) = >>=-eq-ok (raise_if (is_blank c.idempotency_key) value_error) _ checked in
    ground arith

nat_eq_refl : (n : ℕ) → nat_eq n n ≡ true
nat_eq_refl n = ground arith

checked_again :
    (lib : Library) (b : BindingRow) (c : Command) (stamp : String) (ws : Workspace)
    → KeepsRevision lib
    → c.async_task ≡ none
    → c.updated ≡ set_revision (c.expected_revision + 1) ws
    → is_blank c.idempotency_key ≡ false
    → check_request (request_of lib b c stamp) ≡ ok tt
unfolding check_request check_task
checked_again lib b c stamp ws law no_task e filled =
    let revision : serialized_revision (lib.model_dump c.updated)
        ≡ some (num (c.expected_revision + 1)) =
      ap (λ u. serialized_revision (lib.model_dump u)) e ∙ law (c.expected_revision + 1) ws in
    rw filled (rw no_task (rw revision (rw (nat_eq_refl (c.expected_revision + 1)) refl)))

module _ (lib : Library) (law : KeepsRevision lib) (a : SelectionArguments) (b b' : BindingRow)
    (ws ws' : Workspace) (same_session : b'.session_id ≡ b.session_id) (c : Command)
    (p : IsPlanned lib b ws a c) where
  abbrev resent : Command
  resent = selection_of lib b' ws' p.mode p.expected p.key p.paper_ids

  replayed :
      (stamp stamp' : String) (now later : ℕ) (db db' : Db) (call : ToolCall)
      → commit_agent_workspace_tool (request_of lib b c stamp) now db ≡ ok (call, db')
      → commit_agent_workspace_tool (request_of lib b' resent stamp') later db'
        ≡ ok (record call { reused = true }, db')
  replayed stamp stamp' now later db db' call h =
      let filled : is_blank p.key ≡ false =
        ap (λ (d : Command). is_blank d.idempotency_key) (sym p.made)
        ∙ committed_key lib b c stamp now db db' call h in
      commit_replayed (request_of lib b c stamp) (request_of lib b' resent stamp') now later db db'
        call h same_session (ap (λ (d : Command). d.idempotency_key) (sym p.made))
        (ap (λ (d : Command). d.tool_name) (sym p.made))
        (ap (λ (d : Command). lib.command_sha256 d.command) (sym p.made))
        (checked_again lib b' resent stamp'
          (set_selected (new_selection p.mode (previous_of lib ws') p.paper_ids) ws') law refl refl
          filled)

  resent_reply :
      (stamp stamp' : String) (now later : ℕ) (db db' : Db) (call : ToolCall)
      → commit_agent_workspace_tool (request_of lib b c stamp) now db ≡ ok (call, db')
      → commit_workspace_tool lib b' stamp' later resent db'
        ≡ ok (set "idempotency_reused" (bool true) (reply_of lib call), db')
  unfolding commit_workspace_tool
  resent_reply stamp stamp' now later db db' call h =
      rw (commit_workspace_tool, replayed stamp stamp' now later db db' call h)
        (ap (λ r. ok (r, db'))
          (sym (set_twice "idempotency_reused" (bool true) (bool call.reused) call.result_json)))

set_download_selection-steps :
    (lib : Library) (thread : String) (a : SelectionArguments) (stamp : String) (now : ℕ)
    (db db' : Db) (b : BindingRow) (ws : Workspace) (c : Command) (reply : Fields)
    → load_workspace lib thread db ≡ ok (b, ws)
    → plan_selection lib b ws a ≡ ok c
    → commit_workspace_tool lib b stamp now c db ≡ ok (reply, db')
    → set_download_selection lib thread a stamp now db ≡ ok (reply, db')
unfolding set_download_selection
set_download_selection-steps lib thread a stamp now db db' b ws c reply e₁ e₂ e₃ =
    rw (set_download_selection, e₁) (rw e₂ e₃)

-- A selection command that succeeded and is sent again, at any time, while the thread is bound to the same
-- session and the same papers are active, is answered with the reply of the first time, marked as
-- reused, and the database stays as it is; the dump of a workspace is to tell its revision.
pub set_download_selection-again :
    (lib : Library) (thread : String) (a : SelectionArguments) (stamp stamp' : String)
    (now later : ℕ) (db db' : Db) (reply : Fields) (b b' : BindingRow) (ws ws' : Workspace)
    → KeepsRevision lib
    → set_download_selection lib thread a stamp now db ≡ ok (reply, db')
    → load_workspace lib thread db ≡ ok (b, ws)
    → load_workspace lib thread db' ≡ ok (b', ws')
    → b'.session_id ≡ b.session_id
    → ws'.context.active_papers ≡ ws.context.active_papers
    → set_download_selection lib thread a stamp' later db'
      ≡ ok (set "idempotency_reused" (bool true) reply, db')
unfolding set_download_selection
set_download_selection-again lib thread a stamp stamp' now later db db' reply b b' ws ws' law h
      loaded loaded' same_session same_active =
    let h₁ : (plan_selection lib b ws a >>= λ c. commit_workspace_tool lib b stamp now c db)
        ≡ ok (reply, db') =
      rw (set_download_selection, loaded) at h in
    let (c, planned, h₂) = >>=-eq-ok (plan_selection lib b ws a) _ h₁ in
    let (call, committed, replies) = commit_workspace_tool-call lib b stamp now c db db' reply h₂ in
    let p = plan_selection-IsPlanned lib b ws a c planned in
    set_download_selection-steps lib thread a stamp' later db' db' b' ws' _ _ loaded'
      (p.again b' ws' same_active)
      (resent_reply lib law a b b' ws ws' same_session c p stamp stamp' now later db db' call
        committed)
    ∙ ap (λ r. ok (set "idempotency_reused" (bool true) r, db')) (sym replies)
