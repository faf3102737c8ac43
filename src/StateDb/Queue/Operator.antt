-- ===== src/StateDb/Queue/Operator.antt =====
-- state_db.py: the operator's methods on `async_tasks`, the report of the queue and the requeue of dead tasks.
use lit_trace.Base.{
  ℕ, ◌+◌, String, Bool, true, Option, none, some, List, ◌&&◌, ◌||◌, leb, if◌then◌else◌, length,
  is_none,
}
use lit_trace.Base.Table.{update, select}
use lit_trace.StateDb.{AsyncTask, queued, Db, Result, ok, err, programming_error}
use lit_trace.StateDb.Queue.{
  is_queued, is_running, is_completed, is_failed, is_dead, reached, matches,
}

pub record QueueReport : Type 0 where
  pub queued : ℕ
  pub running : ℕ
  pub failed : ℕ
  pub dead : ℕ
  pub completed : ℕ
  pub total : ℕ
  pub reclaimable_running : ℕ
  pub ready_to_claim : ℕ

abbrev pub count_if : (AsyncTask → Bool) → List AsyncTask → ℕ
count_if p ts = length (select p ts)

-- `next_attempt_at IS NULL OR next_attempt_at <= now()`
abbrev pub not_later : Option ℕ → ℕ → Bool
not_later none now = true
not_later (some t) now = leb t now

abbrev pub is_ready : ℕ → AsyncTask → Bool
is_ready now t = (is_queued t.status || is_failed t.status) && not_later t.next_attempt_at now

abbrev pub is_reclaimable : ℕ → AsyncTask → Bool
is_reclaimable now t = is_running t.status && reached t.lease_expires_at now

-- The counts of `async_tasks_queue_report`.
unfoldable pub async_tasks_queue_report : Option String → ℕ → Db → QueueReport
async_tasks_queue_report kind now db =
    let of_kind = select (λ t. matches kind t.kind) db.tasks in
    let q = count_if (λ t. is_queued t.status) of_kind in
    let r = count_if (λ t. is_running t.status) of_kind in
    let f = count_if (λ t. is_failed t.status) of_kind in
    let d = count_if (λ t. is_dead t.status) of_kind in
    let c = count_if (λ t. is_completed t.status) of_kind in
    record {
      queued = q;
      running = r;
      failed = f;
      dead = d;
      completed = c;
      total = q + r + f + d + c;
      reclaimable_running = count_if (is_reclaimable now) of_kind;
      ready_to_claim = count_if (is_ready now) of_kind;
    }

abbrev pub revive : ℕ → AsyncTask → AsyncTask
revive now t = record t {
  status = queued;
  last_error = none;
  lease_owner = none;
  lease_expires_at = none;
  updated_at = now;
}

abbrev pub is_dead_of : Option String → AsyncTask → Bool
is_dead_of kind t = is_dead t.status && matches kind t.kind

-- The statement has a placeholder for the kind only, and is given the limit too. `accepts` is the
-- driver's test of the number of placeholders against the number of parameters.
unfoldable pub requeue_dead_async_tasks :
    (ℕ → ℕ → Bool) → Option String → (limit now : ℕ) → Db → Result (ℕ × Db)
requeue_dead_async_tasks accepts kind limit now db =
    let placeholders : ℕ = if is_none kind then 0 else 1 in
    let parameters = placeholders + 1 in
    if accepts placeholders parameters
    then ok (
      count_if (is_dead_of kind) db.tasks,
      record db { tasks = update (is_dead_of kind) (revive now) db.tasks },
    )
    else err programming_error
