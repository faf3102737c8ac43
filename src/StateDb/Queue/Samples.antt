-- ===== src/StateDb/Queue/Samples.antt =====
-- The theorems about the queue at a queue of two tasks.
use lit_trace.Base.{
  some, find, ◌≤◌, String, ◌≡◌, refl, Bool, true, false, not, none, [], ◌∷◌, ◌&&◌, arith, exists,
  length,
}
use lit_trace.Base.All.{All}
use lit_trace.StateDb.{AsyncTask, queued, Db, empty_db, task_of}
use lit_trace.StateDb.Samples.{task}
use lit_trace.StateDb.Queue.{Filter, claim_pending_async_tasks, is_claimable, passes, member}
use lit_trace.StateDb.Queue.Claim.{claim_exclusive, identifiers}
use lit_trace.StateDb.Queue.Eligible.{claim_progress, claim_untouched}
use lit_trace.StateDb.Queue.Keys.{IsKeyed}

-- A new task, and one that is running under a lease until 400.
abbrev waiting : AsyncTask
waiting = record task {
  task_id = "t2";
  artifact_id = "a2";
  status = queued;
  attempt_count = 0;
  lease_owner = none;
  lease_expires_at = none;
}

abbrev queue : Db
queue = record empty_db { tasks = waiting ∷ task ∷ [] }

abbrev any_task : Filter
any_task = record { kind = none; session_id = none; task_ids = none; artifact_ids = none }

abbrev nothing_locked : String → Bool
nothing_locked s = false

claim_exclusive_example :
    All
      (λ t.
        member t.task_id
          (identifiers (claim_pending_async_tasks "w2" any_task 5 100 20 nothing_locked queue).0)
        ≡ false)
      (claim_pending_async_tasks "w3" any_task 5 100 119 nothing_locked
        (claim_pending_async_tasks "w2" any_task 5 100 20 nothing_locked queue).1).0
claim_exclusive_example =
    claim_exclusive "w2" "w3" any_task any_task 5 5 100 100 20 119 nothing_locked nothing_locked
      queue (omega arith)

some_eligible :
    exists
      (λ t. is_claimable 20 t && (passes any_task t && not (nothing_locked t.task_id)))
      queue.tasks
    ≡ true
unfolding exists is_claimable member
some_eligible = refl

claim_progress_example :
    1 ≤ length (claim_pending_async_tasks "w2" any_task 5 100 20 nothing_locked queue).0
claim_progress_example =
    claim_progress "w2" any_task 5 100 20 nothing_locked queue some_eligible (omega arith)

queue-IsKeyed : IsKeyed queue.tasks
queue-IsKeyed = ((record { other_id = refl; other_work = refl }, tt), (tt, tt))

running_there : find (task_of "t1") queue.tasks ≡ some task
unfolding find
running_there = refl

running_kept : is_claimable 20 task ≡ false
unfolding is_claimable
running_kept = refl

claim_untouched_example :
    find
      (task_of "t1")
      (claim_pending_async_tasks "w2" any_task 5 100 20 nothing_locked queue).1.tasks
    ≡ some task
claim_untouched_example =
    claim_untouched "w2" any_task 5 100 20 nothing_locked queue "t1" task queue-IsKeyed
      running_there running_kept
