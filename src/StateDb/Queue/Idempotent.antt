-- ===== src/StateDb/Queue/Idempotent.antt =====
-- What an enqueue does to a task that is already there, and to a queue that lacks it.
use lit_trace.Base.{
  ℕ, ◌≡◌, true, false, none, some, List, [], ◌∷◌, ◌++◌, arith, eq_refl, find, update, Option-cases,
  inl, inr, sym, ◌∙◌,
}
use lit_trace.Base.Table.{find-append, find-update_self, exists-find, exists-find-none}
use lit_trace.Json.{jsonb}
use lit_trace.StateDb.{AsyncTask, completed, Db, ok, after}
use lit_trace.StateDb.Queue.{same_work, refresh, enqueue_async_task, is_claimable}

same_work_self : (t : AsyncTask) → same_work t t ≡ true
same_work_self t = simp eq_refl

-- An enqueue of work that the queue holds: it answers with the identifier of the row that is there, and
-- only refreshes three of its columns; the status, the attempts and the lease of the row stay.
pub enqueue_again :
    (t : AsyncTask) (now : ℕ) (db : Db) (r : AsyncTask)
    → find (same_work t) db.tasks ≡ some r
    → (db' : Db) × (enqueue_async_task t now db
        ≡ ok (record t { task_id = r.task_id; created_at = r.created_at; updated_at = now }, db'))
      × (find (same_work t) db'.tasks ≡ some (refresh t now r))
unfolding enqueue_async_task
enqueue_again t now db r h = (
  record db { tasks = update (same_work t) (refresh t now) db.tasks },
  rw (exists-find _ _ r h, h),
  rw (find-update_self (same_work t) (refresh t now) db.tasks (λ u e. e), h),
)

-- Enqueueing work that the queue holds as completed never runs it again: the row stays completed,
-- and is claimable at no time.
enqueue_completed :
    (t : AsyncTask) (now later : ℕ) (db : Db) (r : AsyncTask)
    → find (same_work t) db.tasks ≡ some r
    → r.status ≡ completed
    → (r' : AsyncTask) × (find (same_work t) (after db (enqueue_async_task t now db)).tasks
        ≡ some r')
      × (r'.status ≡ completed)
      × (is_claimable later r' ≡ false)
unfolding is_claimable
enqueue_completed t now later db r h c =
    let (db', e, f) = enqueue_again t now db r h in (refresh t now r, rw e f, c, ground arith)

abbrev new_row : AsyncTask → ℕ → AsyncTask
new_row t now = record t { result_json = jsonb t.result_json; updated_at = now }

-- The row of work that the queue lacks, if it was inserted.
enqueue_new :
    (t p : AsyncTask) (now : ℕ) (db db' : Db)
    → find (same_work t) db.tasks ≡ none
    → enqueue_async_task t now db ≡ ok (p, db')
    → (db'.tasks ≡ db.tasks ++ new_row t now ∷ []) × (p.task_id ≡ t.task_id)
unfolding enqueue_async_task
enqueue_new t p now db db' new h =
    let none_yet = exists-find-none (same_work t) db.tasks new in (ground arith, ground arith)

find-new_row :
    (t : AsyncTask) (now : ℕ) (ts : List AsyncTask)
    → find (same_work t) ts ≡ none
    → find (same_work t) (ts ++ new_row t now ∷ []) ≡ some (new_row t now)
unfolding find
find-new_row t now ts h =
    rw (find-append (same_work t) ts (new_row t now ∷ []), h, same_work_self t)

-- Work that was enqueued is in the queue: afterwards there is a row of its idempotency key, with the
-- identifier that the method returned.
pub enqueue_found :
    (t p : AsyncTask) (now : ℕ) (db db' : Db)
    → enqueue_async_task t now db ≡ ok (p, db')
    → (r : AsyncTask) × (find (same_work t) db'.tasks ≡ some r) × (r.task_id ≡ p.task_id)
enqueue_found t p now db db' h = elim (Option-cases (find (same_work t) db.tasks)) [
  | inl new ↦
      let (rows, same) = enqueue_new t p now db db' new h in
      (new_row t now, rw rows (find-new_row t now db.tasks new), sym same)
  | inr (r, old) ↦
      let (db₁, e, f) = enqueue_again t now db r old in
      let same = sym e ∙ h in (refresh t now r, ground (arith, same, f), ground (arith, same))
]
