-- ===== src/StateDb/Tool/Workspace.antt =====
-- What `write_workspace` does to each table.
use lit_trace.Base.{ℕ, String, ◌≡◌, ◌≢◌, refl, false, Option, none, some, List, arith, ==-trans_ne}
use lit_trace.Base.Table.{find, update, find-update_self, find-update_ne, exists-find}
use lit_trace.Json.{Fields}
use lit_trace.StateDb.{SessionRow, Db, ok, of_session, binding_of, is_frozen}
use lit_trace.StateDb.Trail.{update_trail, ensure_chat_trail, ensure_session}
use lit_trace.StateDb.Tool.{set_workspace, set_binding_revision, check_session, write_workspace}

module _ (id : String) (w : Fields) (sha : String) (revision : ℕ) (event : Fields) (now : ℕ)
    (db db' : Db) (h : write_workspace id w sha revision event now db ≡ ok db') where
  pub sessions-write_workspace :
      db'.sessions
      ≡ ensure_session id now
          (update (of_session id) (set_workspace w sha revision now) db.sessions)
  unfolding write_workspace update_trail ensure_chat_trail
  sessions-write_workspace = ground arith

  pub tasks-write_workspace : db'.tasks ≡ db.tasks
  unfolding write_workspace update_trail ensure_chat_trail
  tasks-write_workspace = ground arith

  pub snapshots-write_workspace : db'.snapshots ≡ db.snapshots
  unfolding write_workspace update_trail ensure_chat_trail
  snapshots-write_workspace = ground arith

  pub tool_calls-write_workspace : db'.tool_calls ≡ db.tool_calls
  unfolding write_workspace update_trail ensure_chat_trail
  tool_calls-write_workspace = ground arith

  pub bindings-write_workspace :
      db'.bindings ≡ update (binding_of id) (set_binding_revision revision now) db.bindings
  unfolding write_workspace update_trail ensure_chat_trail
  bindings-write_workspace = ground arith

-- No placeholder is inserted for a session that has a row.
pub find-ensure_session :
    (id j : String) (now : ℕ) (rows : List SessionRow) (r : SessionRow)
    → find (of_session id) rows ≡ some r
    → find (of_session j) (ensure_session id now rows) ≡ find (of_session j) rows
unfolding ensure_session
find-ensure_session id j now rows r h = rw (exists-find _ rows r h)

-- The row that the transaction checked.
pub check_session_ok :
    (o : Option SessionRow) (expected : ℕ)
    → check_session o expected ≡ ok tt
    → (r : SessionRow) × (o ≡ some r) × (r.revision ≡ expected) × (is_frozen r.status ≡ false)
unfolding check_session
check_session_ok none expected h = ground arith
check_session_ok (some r) expected h = (r, refl, ground arith, ground arith)

module _ (id : String) (w : Fields) (sha : String) (revision now : ℕ) (rows : List SessionRow) where
  find-set_workspace_self :
      (r : SessionRow)
      → find (of_session id) rows ≡ some r
      → find (of_session id) (update (of_session id) (set_workspace w sha revision now) rows)
        ≡ some (set_workspace w sha revision now r)
  find-set_workspace_self r h =
      rw (find-update_self (of_session id) (set_workspace w sha revision now) rows (λ x e. e), h)

  find-set_workspace_ne :
      (j : String)
      → j ≢ id
      → find (of_session j) (update (of_session id) (set_workspace w sha revision now) rows)
        ≡ find (of_session j) rows
  find-set_workspace_ne j h =
      find-update_ne (of_session j) (of_session id) (set_workspace w sha revision now) rows
        (λ r e. (==-trans_ne r.session_id id j e h, ==-trans_ne r.session_id id j e h))

-- The sessions after the statements, where the session has a row.
module _ (id : String) (w : Fields) (sha : String) (revision : ℕ) (event : Fields) (now : ℕ)
    (db db' : Db) (h : write_workspace id w sha revision event now db ≡ ok db') (r : SessionRow)
    (e : find (of_session id) db.sessions ≡ some r) where
  pub find-write_workspace_self :
      find (of_session id) db'.sessions ≡ some (set_workspace w sha revision now r)
  find-write_workspace_self =
      let hit = find-set_workspace_self id w sha revision now db.sessions r e in
      rw (sessions-write_workspace id w sha revision event now db db' h)
        (rw (find-ensure_session id id now _ (set_workspace w sha revision now r) hit) hit)

  pub find-write_workspace_ne :
      (j : String) → j ≢ id → find (of_session j) db'.sessions ≡ find (of_session j) db.sessions
  find-write_workspace_ne j n =
      let hit = find-set_workspace_self id w sha revision now db.sessions r e in
      rw (sessions-write_workspace id w sha revision event now db db' h) (
        rw (find-ensure_session id j now _ (set_workspace w sha revision now r) hit)
          (find-set_workspace_ne id w sha revision now db.sessions j n))
