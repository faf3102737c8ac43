-- ===== src/StateDb/Publish/Samples.antt =====
-- The theorems about the publications of results at a small database.
use lit_trace.Base.{
  arith, eq_iff, List, String, Bool, ◌≢◌, ◌≡◌, refl, true, false, none, some, [], ◌∷◌, find, exists,
}
use lit_trace.Base.Table.{update}
use lit_trace.Json.{end, field, str, sanitize_json_value}
use lit_trace.StateDb.{AsyncTask, Db, ok, err, after, lease_mismatch, task_of, is_frozen}
use lit_trace.StateDb.Trail.{
  ensure_chat_trail, ensure_session, ensure_trail, append_recent, update_trail,
}
use lit_trace.Base.Words.{is_blank, is_space}
use lit_trace.StateDb.Tool.{check_session, write_workspace}
use lit_trace.StateDb.Publish.{
  PublishRequest, commit_async_workspace_result, check_publish, check_lease, complete,
}
use lit_trace.Base.Table.{select}
use lit_trace.Base.Sort.{sort_by, insert_by}
use lit_trace.StateDb.Queue.{Filter, claim_pending_async_tasks, claim_ids, is_claimable, member}
use lit_trace.StateDb.Queue.Claim.{identifiers}
use lit_trace.StateDb.Queue.Keys.{IsKeyed}
use lit_trace.StateDb.Publish.Changes.{enqueue, claim, publish, changes}
use lit_trace.StateDb.Publish.Stale.{publish_stale}
use lit_trace.StateDb.Publish.Once.{publish_once}
use lit_trace.StateDb.Samples.{task, db, workspace_at}

abbrev publication : PublishRequest
publication = record {
  session_id = "s1";
  task_id = "t1";
  lease_owner = "w1";
  expected_revision = 3;
  workspace_json = workspace_at 4;
  workspace_sha256 = "def";
  result_json = end;
  audit_event = field "event" (str "parsed") end;
}

abbrev other_publication : PublishRequest
other_publication = record publication { lease_owner = "w2" }

abbrev published : Db
published = after db (commit_async_workspace_result publication 20 db)

publishes :
    commit_async_workspace_result publication 20 db ≡ ok (some (complete end 20 task), published)
unfolding commit_async_workspace_result check_publish check_lease is_blank is_space check_session
    write_workspace ensure_chat_trail ensure_session ensure_trail append_recent update_trail find
    exists update is_frozen sanitize_json_value
publishes = refl

publication_checked : check_publish other_publication ≡ ok tt
unfolding check_publish is_blank is_space
publication_checked = refl

abbrev any_task : Filter
any_task = record { kind = none; session_id = none; task_ids = none; artifact_ids = none }

abbrev unlocked : String → Bool
unlocked id = false

db-IsKeyed : IsKeyed db.tasks
db-IsKeyed = (tt, tt)

-- In between the task is enqueued once more, and another worker tries to claim it.
publish_once_example :
    commit_async_workspace_result other_publication 900
      (changes published ((30, enqueue task) ∷ (800, claim "w2" any_task 5 300 unlocked) ∷ []))
    ≡ err lease_mismatch
publish_once_example =
    publish_once publication other_publication 20 900 db published (some (complete end 20 task))
      ((30, enqueue task) ∷ (800, claim "w2" any_task 5 300 unlocked) ∷ []) db-IsKeyed publishes
      (tt, (refl, tt)) refl refl publication_checked

abbrev claimed : List AsyncTask × Db
claimed = claim_pending_async_tasks "w2" any_task 5 300 500 unlocked db

task_there : find (task_of "t1") db.tasks ≡ some task
unfolding find
task_there = refl

task_claimed : member "t1" (identifiers claimed.0) ≡ true
unfolding claim_pending_async_tasks claim_ids is_claimable member update select sort_by insert_by
task_claimed = refl

abbrev second_worker : String
second_worker = "w2"

second_is_other : second_worker ≢ publication.lease_owner
second_is_other = λ e. ground (arith, (eq_iff second_worker publication.lease_owner).1 e)

first_checks : check_publish publication ≡ ok tt
unfolding check_publish is_blank is_space
first_checks = refl

-- The lease of the first worker ended at 400, and the second one claimed at 500; a third one tries at 600.
publish_stale_example :
    commit_async_workspace_result publication 900 (
      changes claimed.1
        ((600, claim "w3" any_task 5 300 unlocked) ∷ (610, publish other_publication) ∷ []))
    ≡ err lease_mismatch
publish_stale_example =
    publish_stale publication "w2" any_task 5 300 500 900 unlocked db task
      ((600, claim "w3" any_task 5 300 unlocked) ∷ (610, publish other_publication) ∷ []) db-IsKeyed
      task_there refl task_claimed second_is_other (refl, (tt, tt)) first_checks
