-- ===== src/StateDb/Publish/Lasting.antt =====
-- A task whose result a request can no longer publish stays so through any changes that spare it.
use lit_trace.Base.{
  ℕ, ◌+◌, String, ◌≡◌, refl, ap, ◌∙◌, Bool, true, false, Option, none, some, List, [], ◌∷◌, ◌==◌,
  arith, eq_iff, find, update, ==→≡,
}
use mathlib.Core.Path.{subst}
use lit_trace.Base.All.{All}
use lit_trace.Base.Table.{find-holds}
use lit_trace.Json.{Fields}
use lit_trace.StateDb.{
  AsyncTask, ToolCall, Db, Result, ok, err, after, task_of, of_session, >>=-eq-ok,
}
use lit_trace.StateDb.Queue.{
  Filter, set_outcome, grant, any_of, claim_ids, claim_pending_async_tasks, update_async_task,
}
use lit_trace.StateDb.Queue.Operator.{requeue_dead_async_tasks, revive, is_dead_of}
use lit_trace.StateDb.Queue.Keys.{
  KeepsKeys, IsKeyed-update, grant-KeepsKeys, set_outcome-KeepsKeys, revive-KeepsKeys,
}
use lit_trace.StateDb.Queue.Eligible.{claim_untouched}
use lit_trace.StateDb.Tool.{
  ToolRequest, check_request, check_session, write_workspace, replay, commit_found,
  commit_agent_workspace_tool,
}
use lit_trace.StateDb.Tool.Workspace.{tasks-write_workspace}
use lit_trace.StateDb.Tool.Steps.{IsCommitted, commit_fresh-IsCommitted}
use lit_trace.StateDb.Publish.{
  PublishRequest, check_lease, check_publish, complete, commit_async_workspace_result,
}
use lit_trace.StateDb.Publish.Changes.{
  Change, enqueue, claim, finish, requeue, commit_tool, publish, elsewhere, change, changes, Spares,
}
use lit_trace.StateDb.Publish.Barred.{
  settled, Bars, not_claimable, not_dead, update-Bars, enqueue-Bars, insert_task-Bars,
}

pub complete-KeepsKeys : (result : Fields) (now : ℕ) → KeepsKeys (complete result now)
complete-KeepsKeys result now = record {
  task_id = λ u. refl;
  session_id = λ u. refl;
  artifact_id = λ u. refl;
  kind = λ u. refl;
  content_sha256 = λ u. refl;
}

-- A publication that succeeds completes the rows of its task, and changes no other row of the queue.
pub tasks-publish :
    (q : PublishRequest) (now : ℕ) (db db' : Db) (r : Option AsyncTask)
    → commit_async_workspace_result q now db ≡ ok (r, db')
    → db'.tasks ≡ update (task_of q.task_id) (complete q.result_json now) db.tasks
unfolding commit_async_workspace_result
tasks-publish q now db db' r h =
    let (_, _, h₁) = >>=-eq-ok (check_publish q) _ h in
    let (_, _, h₂) = >>=-eq-ok (check_lease q (find (task_of q.task_id) db.tasks)) _ h₁ in
    let (_, _, h₃) =
      >>=-eq-ok (check_session (find (of_session q.session_id) db.sessions) q.expected_revision) _
        h₂ in
    let (db₁, writes, h₄) =
      >>=-eq-ok
        (write_workspace q.session_id q.workspace_json q.workspace_sha256 (q.expected_revision + 1)
          q.audit_event now db)
        _ h₃ in
    let written : db₁.tasks ≡ db.tasks = tasks-write_workspace _ _ _ _ _ now db db₁ writes in
    let made : db'.tasks ≡ update (task_of q.task_id) (complete q.result_json now) db₁.tasks =
      ground arith in
    made ∙ ap (update (task_of q.task_id) (complete q.result_json now)) written

module _ (may_claim : ℕ → Bool) (q : PublishRequest) where
  abbrev Stays : Db → Type 0
  Stays db = Bars may_claim q db.tasks

  after-Stays :
      {A : Type 0} (db : Db) (m : Result (A × Db))
      → Stays db
      → ((a : A) (db' : Db) → m ≡ ok (a, db') → Stays db')
      → Stays (after db m)
  after-Stays db (ok (a, db')) b k = k a db' refl
  after-Stays db (err e) b k = b

  publish-Stays :
      (q' : PublishRequest) (now : ℕ) (db : Db)
      → Stays db
      → Stays (after db (commit_async_workspace_result q' now db))
  publish-Stays q' now db b = after-Stays db (commit_async_workspace_result q' now db) b (λ r db' h.
      rw (tasks-publish q' now db db' r h) (
        update-Bars may_claim q (task_of q'.task_id) (complete q'.result_json now)
          (complete-KeepsKeys q'.result_json now) db.tasks b (λ m. settled refl)))

  committed-Stays :
      (t : ToolRequest) (now : ℕ) (db db' : Db) (c : ToolCall)
      → Stays db
      → IsCommitted t now db db' c
      → Stays db'
  committed-Stays t now db db' c b s =
      let written : s.written.tasks ≡ db.tasks = tasks-write_workspace _ _ _ _ _ _ _ _ s.writes in
      let queued =
        insert_task-Bars may_claim q t.async_task s.written s.queued s.queues (rw written b) in
      rw s.result queued

  commit_found-Stays :
      (t : ToolRequest) (now : ℕ) (db db' : Db) (c : ToolCall) (o : Option ToolCall)
      → Stays db
      → commit_found t now db o ≡ ok (c, db')
      → Stays db'
  unfolding commit_found replay
  commit_found-Stays t now db db' c none b h =
      committed-Stays t now db db' c b (commit_fresh-IsCommitted t now db db' c h)
  commit_found-Stays t now db db' c (some prior) b h =
      let same : db ≡ db' = ground arith in subst Stays same b

  commit_tool-Stays :
      (t : ToolRequest) (now : ℕ) (db : Db)
      → Stays db
      → Stays (after db (commit_agent_workspace_tool t now db))
  unfolding commit_agent_workspace_tool
  commit_tool-Stays t now db b = after-Stays db (commit_agent_workspace_tool t now db) b (λ c db' h.
      let (_, _, found) = >>=-eq-ok (check_request t) _ h in
      commit_found-Stays t now db db' c _ b found)

  claim-Stays :
      (worker : String) (f : Filter) (limit lease now : ℕ) (locked : String → Bool) (db : Db)
      → Stays db
      → may_claim now ≡ true
      → Stays (claim_pending_async_tasks worker f limit lease now locked db).1
  claim-Stays worker f limit lease now locked db b m = record {
    keyed =
        unfold claim_pending_async_tasks in
        IsKeyed-update (any_of (claim_ids f limit now locked db.tasks)) (grant worker now lease)
          (grant-KeepsKeys worker now lease) db.tasks b.keyed;
    task = b.task;
    there =
        claim_untouched worker f limit lease now locked db q.task_id b.task b.keyed b.there
          (not_claimable may_claim q b.task now b.barred m);
    belongs = b.belongs;
    barred = b.barred;
  }

  finish-Stays :
      (t : AsyncTask) (now : ℕ) (db : Db)
      → Stays db
      → (t.task_id == q.task_id) ≡ false
      → Stays (update_async_task t now db)
  unfolding update_async_task
  finish-Stays t now db b other =
      let id : b.task.task_id ≡ q.task_id =
        ==→≡ b.task.task_id q.task_id (find-holds (task_of q.task_id) db.tasks b.task b.there) in
      update-Bars may_claim q (task_of t.task_id) (set_outcome t now) (set_outcome-KeepsKeys t now)
        db.tasks b
        (λ m. absurd (
          ground
            (arith, m, id, other, eq_iff b.task.task_id t.task_id, eq_iff t.task_id q.task_id)))

  requeue-Stays :
      (accepts : ℕ → ℕ → Bool) (kind : Option String) (limit now : ℕ) (db : Db)
      → Stays db
      → Stays (after db (requeue_dead_async_tasks accepts kind limit now db))
  unfolding requeue_dead_async_tasks
  requeue-Stays accepts kind limit now db b =
      after-Stays db (requeue_dead_async_tasks accepts kind limit now db) b (λ n db' h.
        let alive = not_dead may_claim q kind b.task b.barred in
        let made : db'.tasks ≡ update (is_dead_of kind) (revive now) db.tasks = ground arith in
        rw made (
          update-Bars may_claim q (is_dead_of kind) (revive now) (revive-KeepsKeys now) db.tasks b
            (λ m. absurd (ground (arith, alive, m)))))

  change-Stays :
      (db : Db) (c : ℕ × Change) → Stays db → Spares may_claim q.task_id c → Stays (change db c)
  unfolding change
  change-Stays db (now, enqueue t) b s = enqueue-Bars may_claim q t now db b
  change-Stays db (now, claim worker f limit lease locked) b s =
      claim-Stays worker f limit lease now locked db b s
  change-Stays db (now, finish t) b s = finish-Stays t now db b s
  change-Stays db (now, requeue accepts kind limit) b s = requeue-Stays accepts kind limit now db b
  change-Stays db (now, commit_tool t) b s = commit_tool-Stays t now db b
  change-Stays db (now, publish q') b s = publish-Stays q' now db b
  change-Stays db (now, elsewhere other) b s = b

  pub changes-Bars :
      (db : Db) (cs : List (ℕ × Change))
      → Bars may_claim q db.tasks
      → All (Spares may_claim q.task_id) cs
      → Bars may_claim q (changes db cs).tasks
  unfolding changes
  changes-Bars db [] b s = b
  changes-Bars db (c ∷ cs) b s = changes-Bars (change db c) cs (change-Stays db c b s.0) s.1
