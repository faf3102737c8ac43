-- ===== src/StateDb/Queue/Requeue.antt =====
-- The operator's methods on the queue: the report, and the requeue of dead tasks.
use lit_trace.Base.{
  ℕ, ◌+◌, ◌≤◌, String, ◌≡◌, ◌≢◌, refl, Bool, true, false, Option, none, some, List, [], ◌∷◌, arith,
  if◌then◌else◌, length, select,
}
use lit_trace.StateDb.{
  AsyncTask, TaskStatus, queued, running, completed, failed, dead, Db, err, programming_error,
}
use lit_trace.StateDb.Queue.{matches, is_queued, is_running, is_failed, is_dead, is_completed}
use lit_trace.StateDb.Queue.Operator.{
  requeue_dead_async_tasks, async_tasks_queue_report, count_if, is_ready, is_reclaimable,
}

-- The requeue of dead tasks raises, whatever its arguments: the statement has one placeholder less than it is given
-- parameters, and the driver refuses any number of parameters other than that of the placeholders.
requeue_dead_async_tasks_rejected :
    (accepts : ℕ → ℕ → Bool)
    → ((placeholders parameters : ℕ)
        → placeholders ≢ parameters
        → accepts placeholders parameters ≡ false)
    → (kind : Option String) (limit now : ℕ) (db : Db)
    → requeue_dead_async_tasks accepts kind limit now db ≡ err programming_error
unfolding requeue_dead_async_tasks
requeue_dead_async_tasks_rejected accepts h none limit now db =
    rw (h 0 1 (λ e. ground (arith, e))) refl
requeue_dead_async_tasks_rejected accepts h (some k) limit now db =
    rw (h 1 2 (λ e. ground (arith, e))) refl

one_status :
    (s : TaskStatus)
    → (if is_queued s then 1 else 0)
        + (if is_running s then 1 else 0)
        + (if is_failed s then 1 else 0)
        + (if is_dead s then 1 else 0)
        + (if is_completed s then 1 else 0)
      ≡ 1
one_status queued = refl
one_status running = refl
one_status completed = refl
one_status failed = refl
one_status dead = refl

count_if-cons :
    (p : AsyncTask → Bool) (t : AsyncTask) (ts : List AsyncTask)
    → count_if p (t ∷ ts) ≡ (if p t then 1 else 0) + count_if p ts
unfolding select
count_if-cons p t ts = ground arith

count_statuses :
    (ts : List AsyncTask)
    → count_if (λ t. is_queued t.status) ts
        + count_if (λ t. is_running t.status) ts
        + count_if (λ t. is_failed t.status) ts
        + count_if (λ t. is_dead t.status) ts
        + count_if (λ t. is_completed t.status) ts
      ≡ length ts
unfolding select
count_statuses [] = refl
count_statuses (t ∷ ts) = omega (
  arith,
  count_statuses ts,
  one_status t.status,
  count_if-cons (λ t. is_queued t.status) t ts,
  count_if-cons (λ t. is_running t.status) t ts,
  count_if-cons (λ t. is_failed t.status) t ts,
  count_if-cons (λ t. is_dead t.status) t ts,
  count_if-cons (λ t. is_completed t.status) t ts,
)

count_if-le :
    (p q : AsyncTask → Bool) (ts : List AsyncTask)
    → ((t : AsyncTask) → p t ≡ true → q t ≡ true)
    → count_if p ts ≤ count_if q ts
unfolding select
count_if-le p q [] h = omega arith
count_if-le p q (t ∷ ts) h = ground (arith, h t, count_if-le p q ts h)

ready-le :
    (now : ℕ) (ts : List AsyncTask)
    → count_if (is_ready now) ts
      ≤ count_if (λ t. is_queued t.status) ts + count_if (λ t. is_failed t.status) ts
unfolding select
ready-le now [] = omega arith
ready-le now (t ∷ ts) = ground (arith, ready-le now ts)

-- The report counts every task of the kind exactly once, and says to be ready no more than are queued or failed, and
-- to be reclaimable no more than are running.
async_tasks_queue_report-counts :
    (kind : Option String) (now : ℕ) (db : Db)
    → let r = async_tasks_queue_report kind now db in
      (r.total ≡ length (select (λ t. matches kind t.kind) db.tasks))
      × (r.ready_to_claim ≤ r.queued + r.failed)
      × (r.reclaimable_running ≤ r.running)
unfolding async_tasks_queue_report
async_tasks_queue_report-counts kind now db =
    let of_kind = select (λ (t : AsyncTask). matches kind t.kind) db.tasks in
    (
      count_statuses of_kind,
      ready-le now of_kind,
      count_if-le (is_reclaimable now) (λ t. is_running t.status) of_kind
          (λ t h. ground (arith, h)),
    )
