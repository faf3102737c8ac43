-- ===== src/StateDb/Publish/Stale.antt =====
-- A worker whose lease ran out and whose task another one claimed cannot publish its result.
use lit_trace.Base.{
  ℕ, String, ◌≡◌, ◌≢◌, refl, sym, Bool, true, false, ltb, ◌+◌, some, List, [], ◌∷◌, ◌==◌, arith,
  eq_iff, find, select, update, Bool-cases, inl, inr, ==→≡,
}
use mathlib.Core.Path.{subst}
use lit_trace.Base.Table.{find-update_kept, find-holds}
use lit_trace.StateDb.{AsyncTask, Db, ok, err, lease_mismatch, task_of}
use lit_trace.StateDb.Queue.{Filter, member, any_of, grant, claim_ids, claim_pending_async_tasks}
use lit_trace.StateDb.Queue.Claim.{identifiers}
use lit_trace.Base.All.{All}
use lit_trace.StateDb.Queue.Keys.{IsKeyed, IsKeyed-update, grant-KeepsKeys}
use lit_trace.StateDb.Publish.Changes.{Change, changes, Spares}
use lit_trace.StateDb.Publish.Barred.{Bars, held, Bars-lease_mismatch}
use lit_trace.StateDb.Publish.Lasting.{changes-Bars}
use lit_trace.StateDb.Publish.{
  PublishRequest, owned_by, check_publish, commit_async_workspace_result,
}

member-select :
    (id : String) (ids : List String) (ts : List AsyncTask)
    → member id (identifiers (select (any_of ids) ts)) ≡ true
    → member id ids ≡ true
unfolding member select
member-select id ids [] h = ground arith
member-select id ids (t ∷ ts) h = elim (Bool-cases (any_of ids t)) [
  | inr left ↦ member-select id ids ts (rw left at h)
  | inl taken ↦ elim (Bool-cases (t.task_id == id)) [
    | inr other ↦ member-select id ids ts (rw (taken, other) at h)
    | inl here ↦ subst (λ i. member i ids ≡ true) (==→≡ t.task_id id here) taken
  ]
]

owned_by_other : (owner worker : String) → worker ≢ owner → owned_by owner (some worker) ≡ false
owned_by_other owner worker h = ground (arith, h, eq_iff worker owner)

abbrev pub before : ℕ → ℕ → Bool
before limit now = ltb now limit

-- In a queue whose two unique indices hold, once a claim has given a task of a session to a worker, a
-- publication of its result for that session by any other worker, such as one whose lease had run out, is
-- refused as a lease mismatch, if its arguments pass the first checks: at any time, and after any sequence
-- of changes to the database, of this queue (jobs enqueued, dead tasks requeued, tool calls with their
-- jobs, publications, outcomes of other tasks) or of any other table, in which all claims come before the
-- lease runs out and there is no `update_async_task` of that task itself.
pub publish_stale :
    (q : PublishRequest) (worker : String) (f : Filter) (limit lease now later : ℕ)
    (locked : String → Bool) (db : Db) (t : AsyncTask) (cs : List (ℕ × Change))
    → IsKeyed db.tasks
    → find (task_of q.task_id) db.tasks ≡ some t
    → t.session_id ≡ q.session_id
    → member q.task_id
        (identifiers (claim_pending_async_tasks worker f limit lease now locked db).0)
      ≡ true
    → worker ≢ q.lease_owner
    → All (Spares (before (now + lease)) q.task_id) cs
    → check_publish q ≡ ok tt
    → commit_async_workspace_result q later
        (changes (claim_pending_async_tasks worker f limit lease now locked db).1 cs)
      ≡ err lease_mismatch
unfolding claim_pending_async_tasks
publish_stale q worker f limit lease now later locked db t cs keyed found same claimed other spared
      checked =
    let ids = claim_ids f limit now locked db.tasks in
    let taken : any_of ids t ≡ true =
      subst (λ i. member i ids ≡ true)
        (sym (==→≡ t.task_id q.task_id (find-holds (task_of q.task_id) db.tasks t found)))
        (member-select q.task_id ids (update (any_of ids) (grant worker now lease) db.tasks)
          claimed) in
    let row =
      find-update_kept (task_of q.task_id) (any_of ids) (grant worker now lease) db.tasks t
        (λ x. refl) found in
    let barred : Bars (before (now + lease)) q
        (update (any_of ids) (grant worker now lease) db.tasks) =
      record {
        keyed =
            IsKeyed-update (any_of ids) (grant worker now lease) (grant-KeepsKeys worker now lease)
              db.tasks keyed;
        task = grant worker now lease t;
        there = rw taken at row;
        belongs = same;
        barred =
            held refl (owned_by_other q.lease_owner worker other)
              (λ n early. ground (arith, early));
      } in
    Bars-lease_mismatch (before (now + lease)) q later _
      (changes-Bars (before (now + lease)) q _ cs barred spared) checked
