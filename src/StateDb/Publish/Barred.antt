-- ===== src/StateDb/Publish/Barred.antt =====
-- A task whose result a request can no longer publish, and that it stays so.
use lit_trace.Base.{
  ℕ, String, ◌≡◌, refl, ap, ◌∙◌, Bool, true, false, Option, none, some, List, [], ◌∷◌, ◌++◌, ◌==◌,
  arith, eq_iff, find, exists, update, Bool-cases, inl, inr,
}
use mathlib.Core.Path.{subst}
use lit_trace.Base.Table.{find-update_kept, find-append}
use lit_trace.Json.{jsonb}
use lit_trace.StateDb.{AsyncTask, running, completed, Db, ok, err, lease_mismatch, after, task_of}
use lit_trace.StateDb.Queue.{same_work, is_claimable, reached, refresh, enqueue_async_task}
use lit_trace.StateDb.Queue.Operator.{is_dead_of}
use lit_trace.StateDb.Queue.Keys.{
  IsKeyed, KeepsKeys, IsKeyed-update, IsKeyed-append, refresh-KeepsKeys,
}
use lit_trace.StateDb.Tool.{insert_task}
use lit_trace.StateDb.Publish.{
  PublishRequest, owned_by, check_lease, check_publish, commit_async_workspace_result,
}

module _ (may_claim : ℕ → Bool) (q : PublishRequest) where
  -- A task that is completed, or running under a lease of another owner which no permitted claim
  -- finds run out.
  pub data IsBarred (t : AsyncTask) : Type 0 where
    settled : t.status ≡ completed → IsBarred t
    held :
        t.status ≡ running
        → owned_by q.lease_owner t.lease_owner ≡ false
        → ((now : ℕ) → may_claim now ≡ true → reached t.lease_expires_at now ≡ false)
        → IsBarred t

  -- The queue has such a task, of the session of the request, under its identifier.
  pub record Bars (ts : List AsyncTask) : Type 0 where
    pub keyed : IsKeyed ts
    pub task : AsyncTask
    pub there : find (task_of q.task_id) ts ≡ some task
    pub belongs : task.session_id ≡ q.session_id
    pub barred : IsBarred task

  pub not_claimable :
      (t : AsyncTask) (now : ℕ) → IsBarred t → may_claim now ≡ true → is_claimable now t ≡ false
  unfolding is_claimable
  not_claimable t now (settled c) m = ground (arith, c)
  not_claimable t now (held r o lasts) m = ground (arith, r, lasts now m)

  pub not_dead : (kind : Option String) (t : AsyncTask) → IsBarred t → is_dead_of kind t ≡ false
  not_dead kind t (settled c) = ground (arith, c)
  not_dead kind t (held r o lasts) = ground (arith, r)

  refused :
      (t : AsyncTask)
      → t.session_id ≡ q.session_id
      → IsBarred t
      → check_lease q (some t) ≡ err lease_mismatch
  unfolding check_lease
  refused t s (settled c) = ground (arith, s, c, eq_iff t.session_id q.session_id)
  refused t s (held r o lasts) = ground (arith, s, r, o, eq_iff t.session_id q.session_id)

  -- While the queue has such a task, the request is refused.
  pub Bars-lease_mismatch :
      (later : ℕ) (db : Db)
      → Bars db.tasks
      → check_publish q ≡ ok tt
      → commit_async_workspace_result q later db ≡ err lease_mismatch
  unfolding commit_async_workspace_result
  Bars-lease_mismatch later db b checked =
      rw (checked, b.there, refused b.task b.belongs b.barred) refl

  pub update-Bars :
      (p : AsyncTask → Bool) (f : AsyncTask → AsyncTask) (k : KeepsKeys f) (ts : List AsyncTask)
      (b : Bars ts)
      → (p b.task ≡ true → IsBarred (f b.task))
      → Bars (update p f ts)
  update-Bars p f k ts b keeps =
      let found =
        find-update_kept (task_of q.task_id) p f ts b.task
          (λ x. ap (λ i. i == q.task_id) (k.task_id x)) b.there in
      let keyed = IsKeyed-update p f k ts b.keyed in
      elim (Bool-cases (p b.task)) [
        | inl hit ↦ record {
          keyed = keyed;
          task = f b.task;
          there = rw hit at found;
          belongs = k.session_id b.task ∙ b.belongs;
          barred = keeps hit;
        }
        | inr miss ↦ record {
          keyed = keyed;
          task = b.task;
          there = rw miss at found;
          belongs = b.belongs;
          barred = b.barred;
        }
      ]

  append-Bars :
      (row : AsyncTask) (ts : List AsyncTask)
      → Bars ts
      → IsKeyed (ts ++ row ∷ [])
      → Bars (ts ++ row ∷ [])
  append-Bars row ts b k = record {
    keyed = k;
    task = b.task;
    there = rw (find-append (task_of q.task_id) ts (row ∷ []), b.there) refl;
    belongs = b.belongs;
    barred = b.barred;
  }

  refresh-IsBarred :
      (t : AsyncTask) (now : ℕ) (u : AsyncTask) → IsBarred u → IsBarred (refresh t now u)
  refresh-IsBarred t now u (settled c) = settled c
  refresh-IsBarred t now u (held r o lasts) = held r o lasts

  pub enqueue-Bars :
      (t : AsyncTask) (now : ℕ) (db : Db)
      → Bars db.tasks
      → Bars (after db (enqueue_async_task t now db)).tasks
  unfolding enqueue_async_task
  enqueue-Bars t now db b = elim (Bool-cases (exists (same_work t) db.tasks)) [
    | inl e ↦ rw e (
        update-Bars (same_work t) (refresh t now) (refresh-KeepsKeys t now) db.tasks b
          (λ m. refresh-IsBarred t now b.task b.barred))
    | inr e ↦ rw e (elim (Bool-cases (exists (task_of t.task_id) db.tasks)) [
      | inl i ↦ rw i b
      | inr i ↦
          rw i (append-Bars _ db.tasks b (IsKeyed-append t _ db.tasks refl (λ u. refl) e i b.keyed))
    ])
  ]

  pub insert_task-Bars :
      (o : Option AsyncTask) (db db' : Db)
      → insert_task o db ≡ ok db'
      → Bars db.tasks
      → Bars db'.tasks
  unfolding insert_task
  insert_task-Bars none db db' h b =
      let same : db ≡ db' = ground arith in subst (λ (d : Db). Bars d.tasks) same b
  insert_task-Bars (some t) db db' h b = elim (Bool-cases (exists (task_of t.task_id) db.tasks)) [
    | inl i ↦ ground arith
    | inr i ↦ elim (Bool-cases (exists (same_work t) db.tasks)) [
      | inl e ↦ ground arith
      | inr e ↦
          let e' : record db {
            tasks = db.tasks ++ record t { result_json = jsonb t.result_json } ∷ [];
          }
              ≡ db' =
            ground arith in
          subst (λ (d : Db). Bars d.tasks) e'
            (append-Bars _ db.tasks b (IsKeyed-append t _ db.tasks refl (λ u. refl) e i b.keyed))
    ]
  ]
