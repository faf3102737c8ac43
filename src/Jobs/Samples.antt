-- ===== src/Jobs/Samples.antt =====
-- The theorems about the jobs at small queues.
use lit_trace.Base.{
  ℕ, ◌+◌, ◌*◌, ◌≤◌, String, ◌≡◌, refl, false, none, List, [], ◌∷◌, length, max, join,
}
use lit_trace.Base.All.{All}
use lit_trace.Json.{Json, end, field, str}
use lit_trace.StateDb.{AsyncTask, queued, Db, Error, empty_db, second}
use lit_trace.StateDb.Samples.{task, session}
use lit_trace.StateDb.Queue.{is_claimable, claim_pending_async_tasks}
use lit_trace.StateDb.Queue.Keys.{IsKeyed}
use lit_trace.Jobs.{RetryPolicy, backoff, failed_job}
use lit_trace.Jobs.Attempts.{Failure, fail_once, Claims, attempts_bounded}
use lit_trace.Jobs.Outbox.{outbox_filter, dispatch_embedding_outbox}
use lit_trace.Jobs.Outbox.Promise.{IsSettled}
use lit_trace.Jobs.Outbox.Batch.{dispatch_embedding_outbox-AreSettled}
use lit_trace.Jobs.Compaction.{failed_task}
use lit_trace.Jobs.Compaction.Driver.{fail_compaction, CompactionClaims, compaction_attempts_halved}

abbrev policy : RetryPolicy
policy = record { max_attempts = 3; base_delay_seconds = 2 * second }

abbrev new_job : AsyncTask
new_job = record task {
  status = queued;
  attempt_count = 0;
  lease_owner = none;
  lease_expires_at = none;
  last_heartbeat_at = none;
}

abbrev timeout_at : ℕ → Failure
timeout_at now = record {
  worker = "w1";
  claimed_at = now;
  lease = 300 * second;
  took = second;
  error = "TimeoutError";
}

abbrev runs : List Failure
runs = timeout_at 10 ∷ timeout_at (10 * second) ∷ timeout_at (90 * second) ∷ []

runs_claim : Claims policy runs new_job
unfolding is_claimable fail_once failed_job backoff
runs_claim = (refl, (refl, (refl, tt)))

attempts_bounded_example : length runs ≤ max 3 1
attempts_bounded_example = attempts_bounded policy runs new_job refl runs_claim

abbrev two_runs : List Failure
two_runs = timeout_at 10 ∷ timeout_at (10 * second) ∷ []

two_runs_claim : CompactionClaims policy two_runs new_job
unfolding is_claimable fail_compaction failed_task backoff
two_runs_claim = (refl, (refl, tt))

compaction_attempts_halved_example : 2 * length two_runs ≤ max 3 1 + 1
compaction_attempts_halved_example =
    compaction_attempts_halved policy two_runs new_job refl two_runs_claim

abbrev digest : List String → String
digest parts = join parts

abbrev str_of : Json → String
str_of v = "3"

abbrev error_text : Error → String
error_text e = "UniqueViolation"

abbrev outbox : Db
outbox = record empty_db {
  sessions = session ∷ [];
  tasks =
      record new_job { task_id = "o1"; kind = "artifact_outbox"; content_sha256 = "c1" }
      ∷ record new_job {
        task_id = "o2";
        kind = "artifact_outbox";
        content_sha256 = "c2";
        result_json = field "source_revision" (str "3") end;
      }
      ∷ [];
}

outbox-IsKeyed : IsKeyed outbox.tasks
outbox-IsKeyed = ((record { other_id = refl; other_work = refl }, tt), (tt, tt))

dispatch-AreSettled_example :
    All
      (IsSettled digest str_of policy error_text 50
        (dispatch_embedding_outbox digest str_of policy error_text 50 "outbox:1" 20 none none
          (λ s. false)
          outbox).0)
      (claim_pending_async_tasks "outbox:1"
        (outbox_filter none none)
        20
        (300 * second)
        50
        (λ s. false)
        outbox).0
    × ((dispatch_embedding_outbox digest str_of policy error_text 50 "outbox:1" 20 none none
            (λ s. false)
            outbox).1.dispatched
          + (dispatch_embedding_outbox digest str_of policy error_text 50 "outbox:1" 20 none none
              (λ s. false)
              outbox).1.failed
        ≡ length
            (claim_pending_async_tasks "outbox:1"
              (outbox_filter none none)
              20
              (300 * second)
              50
              (λ s. false)
              outbox).0)
dispatch-AreSettled_example =
    dispatch_embedding_outbox-AreSettled digest str_of policy error_text 50 "outbox:1" 20 none none
      (λ s. false) outbox outbox-IsKeyed
