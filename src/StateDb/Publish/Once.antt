-- ===== src/StateDb/Publish/Once.antt =====
-- A worker publishes only a task that it leases, and a task is published once.
use lit_trace.Base.{
  ℕ, ◌+◌, String, Bool, ◌≡◌, refl, true, false, Option, none, some, arith, find, update, eq_iff,
  sym, ◌∙◌, ap, List,
}
use lit_trace.Base.Table.{find-update_self}
use mathlib.Core.Path.{subst}
use lit_trace.Json.{Fields}
use lit_trace.StateDb.{
  AsyncTask, Result, running, SessionRow, Db, ok, err, lease_mismatch, >>=-eq-ok, of_session,
  task_of, is_frozen,
}
use lit_trace.StateDb.Tool.{check_session, set_workspace, write_workspace}
use lit_trace.StateDb.Tool.Workspace.{
  check_session_ok, find-write_workspace_self, tasks-write_workspace,
}
use lit_trace.Base.All.{All}
use lit_trace.StateDb.Queue.Keys.{IsKeyed, IsKeyed-update}
use lit_trace.StateDb.Publish.Changes.{Change, changes, Spares}
use lit_trace.StateDb.Publish.Barred.{Bars, settled, Bars-lease_mismatch}
use lit_trace.StateDb.Publish.Lasting.{tasks-publish, complete-KeepsKeys, changes-Bars}
use lit_trace.StateDb.Publish.{
  PublishRequest, check_publish, check_lease, complete, owned_by, commit_async_workspace_result,
}

-- The task row before and after, and the session that the result was merged into.
pub record IsPublished (q : PublishRequest) (now : ℕ) (db db' : Db) (r : Option AsyncTask)
    : Type 0 where
  pub task : AsyncTask
  pub leased : find (task_of q.task_id) db.tasks ≡ some task
  pub runs : task.status ≡ running
  pub owner : task.lease_owner ≡ some q.lease_owner
  pub belongs : task.session_id ≡ q.session_id
  pub done : find (task_of q.task_id) db'.tasks ≡ some (complete q.result_json now task)
  pub result : r ≡ some (complete q.result_json now task)
  pub row : SessionRow
  pub before : find (of_session q.session_id) db.sessions ≡ some row
  pub at_expected : row.revision ≡ q.expected_revision
  pub open_status : is_frozen row.status ≡ false
  pub after :
      find (of_session q.session_id) db'.sessions
      ≡ some (set_workspace q.workspace_json q.workspace_sha256 (q.expected_revision + 1) now row)

abbrev Outcome : PublishRequest → ℕ → Db → Result (Option AsyncTask × Db) → Type 0
Outcome q now db (ok (r, db')) = IsPublished q now db db' r
Outcome q now db (err e) = Unit

owned_by_eq : (owner : String) (o : Option String) → owned_by owner o ≡ true → o ≡ some owner
owned_by_eq owner none h = cc
owned_by_eq owner (some s) h = ap some ((eq_iff s owner).0 h)

-- The lease that the transaction checked.
check_lease_ok :
    (q : PublishRequest) (o : Option AsyncTask)
    → check_lease q o ≡ ok tt
    → (t : AsyncTask) × (o ≡ some t)
      × (t.status ≡ running)
      × (t.lease_owner ≡ some q.lease_owner)
      × (t.session_id ≡ q.session_id)
unfolding check_lease
check_lease_ok q none h = ground arith
check_lease_ok q (some t) h = (
  t,
  refl,
  ground arith,
  owned_by_eq q.lease_owner t.lease_owner (ground arith),
  ground (arith, eq_iff t.session_id q.session_id),
)

find-complete :
    (id : String) (result : Fields) (now : ℕ) (ts : List AsyncTask) (t : AsyncTask)
    → find (task_of id) ts ≡ some t
    → find (task_of id) (update (task_of id) (complete result now) ts)
      ≡ some (complete result now t)
find-complete id result now ts t h =
    rw (find-update_self (task_of id) (complete result now) ts (λ x e. e), h)

-- The database that the last statements leave, from what the checks read.
module _ (q : PublishRequest) (now : ℕ) (db db₁ : Db)
    (writes : write_workspace q.session_id q.workspace_json q.workspace_sha256
        (q.expected_revision + 1)
        q.audit_event
        now
        db
      ≡ ok db₁) where
  abbrev finished : List AsyncTask
  finished = update (task_of q.task_id) (complete q.result_json now) db₁.tasks

  finished-IsPublished :
      check_lease q (find (task_of q.task_id) db.tasks) ≡ ok tt
      → check_session (find (of_session q.session_id) db.sessions) q.expected_revision ≡ ok tt
      → IsPublished q now db (record db₁ { tasks = finished }) (find (task_of q.task_id) finished)
  finished-IsPublished leased checked =
      let (t, found, runs, owner, belongs) = check_lease_ok q _ leased in
      let (row, before, at, open_status) = check_session_ok _ q.expected_revision checked in
      let still : find (task_of q.task_id) db₁.tasks ≡ some t =
        ap (find (task_of q.task_id)) (tasks-write_workspace _ _ _ _ _ now db db₁ writes) ∙ found in
      let hit = find-complete q.task_id q.result_json now db₁.tasks t still in
      record {
        task = t;
        leased = found;
        runs = runs;
        owner = owner;
        belongs = belongs;
        done = hit;
        result = hit;
        row = row;
        before = before;
        at_expected = at;
        open_status = open_status;
        after = find-write_workspace_self _ _ _ _ _ now db db₁ writes row before;
      }

abbrev pub at_any_time : ℕ → Bool
at_any_time now = true

-- A publication that succeeds was made by the owner of the lease of a running task of the session, at
-- the expected revision of a session that is not frozen; the task is then completed with the result, and
-- the session is at the next revision with the new workspace.
pub publish-IsPublished :
    (q : PublishRequest) (now : ℕ) (db db' : Db) (r : Option AsyncTask)
    → commit_async_workspace_result q now db ≡ ok (r, db')
    → IsPublished q now db db' r
unfolding commit_async_workspace_result
publish-IsPublished q now db db' r h =
    let (_, _, h₁) = >>=-eq-ok (check_publish q) _ h in
    let (_, leased, h₂) = >>=-eq-ok (check_lease q (find (task_of q.task_id) db.tasks)) _ h₁ in
    let (_, checked, h₃) =
      >>=-eq-ok (check_session (find (of_session q.session_id) db.sessions) q.expected_revision) _
        h₂ in
    let (db₁, writes, h₄) =
      >>=-eq-ok
        (write_workspace q.session_id q.workspace_json q.workspace_sha256 (q.expected_revision + 1)
          q.audit_event now db)
        _ h₃ in
    subst (Outcome q now db) h₄ (finished-IsPublished q now db db₁ writes leased checked)

-- After a publication of the result of a task, in a queue whose two unique indices hold, a further one
-- of that task for that session, by any owner, is refused as a lease mismatch, if its arguments pass the
-- first checks: at any time, and after any sequence of changes to the database, of this queue (jobs
-- enqueued, claims, dead tasks requeued, tool calls with their jobs, publications, outcomes of other
-- tasks) or of any other table, but for an `update_async_task` of that task itself.
pub publish_once :
    (q q' : PublishRequest) (now later : ℕ) (db db' : Db) (r : Option AsyncTask)
    (cs : List (ℕ × Change))
    → IsKeyed db.tasks
    → commit_async_workspace_result q now db ≡ ok (r, db')
    → All (Spares at_any_time q'.task_id) cs
    → q'.task_id ≡ q.task_id
    → q'.session_id ≡ q.session_id
    → check_publish q' ≡ ok tt
    → commit_async_workspace_result q' later (changes db' cs) ≡ err lease_mismatch
publish_once q q' now later db db' r cs keyed h spared same_task same_session checked =
    let p = publish-IsPublished q now db db' r h in
    let tasks = tasks-publish q now db db' r h in
    let barred : Bars at_any_time q' db'.tasks = record {
      keyed = rw tasks (
          IsKeyed-update (task_of q.task_id) (complete q.result_json now)
            (complete-KeepsKeys q.result_json now) db.tasks keyed);
      task = complete q.result_json now p.task;
      there = rw same_task p.done;
      belongs = p.belongs ∙ sym same_session;
      barred = settled refl;
    } in
    Bars-lease_mismatch at_any_time q' later (changes db' cs)
      (changes-Bars at_any_time q' db' cs barred spared) checked
