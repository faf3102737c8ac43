-- ===== src/StateDb/Queue/Evolution.antt =====
-- What the queue's methods keep of a row and of the work that is there.
use lit_trace.Base.{
  ℕ, String, ◌≡◌, refl, sym, ◌∙◌, ◌⊎◌, inl, inr, Bool, true, false, some, List, [], ◌∷◌, ◌++◌, ◌==◌,
  arith, eq_iff, find, exists, update, if◌then◌else◌, Bool-cases,
}
use mathlib.Core.Path.{subst}
use lit_trace.Base.Table.{
  find-update_kept, find-append, find-update_self, find-update_ne, exists-update,
}
use lit_trace.Json.{jsonb}
use lit_trace.StateDb.{AsyncTask, TaskStatus, Db, ok, task_of}
use lit_trace.StateDb.Queue.{same_work, refresh, enqueue_async_task, update_async_task, set_outcome}

-- The row with that identifier has that status.
abbrev pub HasStatus : TaskStatus → Db → String → Type 0
HasStatus status db id =
    (u : AsyncTask) × (find (task_of id) db.tasks ≡ some u) × (u.status ≡ status)

-- No work of the queue is lost, and a row keeps its status.
pub record Evolves (id : String) (db db' : Db) : Type 0 where
  pub works :
      (t : AsyncTask) → exists (same_work t) db.tasks ≡ true → exists (same_work t) db'.tasks ≡ true
  pub rows : (s : TaskStatus) → HasStatus s db id → HasStatus s db' id

pub exists-append :
    {A : Type 0} (p : A → Bool) (xs ys : List A) → exists p xs ≡ true → exists p (xs ++ ys) ≡ true
unfolding exists
exists-append p [] ys h = ground arith
exists-append p (x ∷ xs) ys h = ground (arith, exists-append p xs ys)

-- An enqueue refreshes the rows of its work, or appends a row.
pub enqueue_tasks :
    (t : AsyncTask) (now : ℕ) (db : Db) (p : AsyncTask) (db' : Db)
    → enqueue_async_task t now db ≡ ok (p, db')
    → (db'.tasks ≡ update (same_work t) (refresh t now) db.tasks)
      ⊎ ((u : AsyncTask) × (db'.tasks ≡ db.tasks ++ u ∷ []))
unfolding enqueue_async_task
enqueue_tasks t now db p db' h = elim (Bool-cases (exists (same_work t) db.tasks)) [
  | inl there ↦ inl (ground (arith, rw there at h))
  | inr new ↦ inr (
    record t { result_json = jsonb t.result_json; updated_at = now },
    ground (arith, rw new at h),
  )
]

pub status_kept :
    (t u : AsyncTask) (now : ℕ) → (if same_work t u then refresh t now u else u).status ≡ u.status
status_kept t u now = ground arith

pub both : {id : String} {a b c : Db} → Evolves id a b → Evolves id b c → Evolves id a c
both e f = record { works = λ t w. f.works t (e.works t w); rows = λ s h. f.rows s (e.rows s h) }

pub enqueue-Evolves :
    (t : AsyncTask) (now : ℕ) (db : Db) (p : AsyncTask) (db' : Db) (id : String)
    → enqueue_async_task t now db ≡ ok (p, db')
    → Evolves id db db'
enqueue-Evolves t now db p db' id h = elim (enqueue_tasks t now db p db' h) [
  | inl same ↦ record {
    works = λ s e.
        rw (same, exists-update (same_work s) (same_work t) (refresh t now) db.tasks (λ u m. refl))
          e;
    rows = λ s (u, f, k). (
      (if same_work t u then refresh t now u else u),
      rw same
          (find-update_kept (task_of id) (same_work t) (refresh t now) db.tasks u (λ x. refl) f),
      status_kept t u now ∙ k,
    );
  }
  | inr (row, same) ↦ record {
    works = λ s e. rw same (exists-append (same_work s) db.tasks (row ∷ []) e);
    rows = λ s (u, f, k). (u, rw (same, find-append (task_of id) db.tasks (row ∷ []), f) refl, k);
  }
]

pub update-Evolves :
    (t : AsyncTask) (now : ℕ) (db : Db) (id : String)
    → (t.task_id == id) ≡ false
    → Evolves id db (update_async_task t now db)
unfolding update_async_task
update-Evolves t now db id n = record {
  works = λ s e.
      rw
        (exists-update (same_work s) (task_of t.task_id) (set_outcome t now) db.tasks (λ u m. refl))
        e;
  rows = λ s (u, f, k). (
    u,
    rw
        (find-update_ne (task_of id) (task_of t.task_id) (set_outcome t now) db.tasks (λ r m.
          let miss : (r.task_id == id) ≡ false = ground (arith, m, n, eq_iff r.task_id t.task_id) in
          (miss, miss)))
        f,
    k,
  );
}

pub update_works :
    (t s : AsyncTask) (now : ℕ) (db : Db)
    → exists (same_work s) db.tasks ≡ true
    → exists (same_work s) (update_async_task t now db).tasks ≡ true
unfolding update_async_task
update_works t s now db e =
    rw (exists-update (same_work s) (task_of t.task_id) (set_outcome t now) db.tasks (λ u m. refl))
      e

-- The outcome of a task is the status of its row.
pub update-HasStatus :
    (t : AsyncTask) (now : ℕ) (db : Db) (s : TaskStatus)
    → HasStatus s db t.task_id
    → HasStatus t.status (update_async_task t now db) t.task_id
unfolding update_async_task
update-HasStatus t now db s (u, f, k) = (
  set_outcome t now u,
  rw (find-update_self (task_of t.task_id) (set_outcome t now) db.tasks (λ r h. h), f) refl,
  refl,
)

pub update-HasStatus_of :
    (t : AsyncTask) (id : String) (now : ℕ) (db : Db) (s : TaskStatus)
    → t.task_id ≡ id
    → HasStatus s db id
    → HasStatus t.status (update_async_task t now db) id
update-HasStatus_of t id now db s e h =
    subst (λ i. HasStatus t.status (update_async_task t now db) i) e
      (update-HasStatus t now db s (subst (λ i. HasStatus s db i) (sym e) h))

pub HasStatus-eq :
    {s s' : TaskStatus} (db : Db) (id : String) → s ≡ s' → HasStatus s db id → HasStatus s' db id
HasStatus-eq db id e (u, f, k) = (u, f, k ∙ e)
