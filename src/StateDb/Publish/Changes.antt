-- ===== src/StateDb/Publish/Changes.antt =====
-- What changes the database between two moments, as a sequence of method calls, each with its time.
use lit_trace.Base.{ℕ, String, ◌≡◌, Bool, true, false, Option, List, [], ◌∷◌, ◌==◌}
use lit_trace.StateDb.{AsyncTask, Db, after}
use lit_trace.StateDb.Queue.{
  Filter, enqueue_async_task, claim_pending_async_tasks, update_async_task,
}
use lit_trace.StateDb.Queue.Operator.{requeue_dead_async_tasks}
use lit_trace.StateDb.Tool.{ToolRequest, commit_agent_workspace_tool}
use lit_trace.StateDb.Publish.{PublishRequest, commit_async_workspace_result}

-- The methods that write `async_tasks`, and any change of the other tables, to those of another database.
pub data Change : Type 0 where
  enqueue : AsyncTask → Change
  claim : String → Filter → (limit lease : ℕ) → (String → Bool) → Change
  finish : AsyncTask → Change
  requeue : (ℕ → ℕ → Bool) → Option String → (limit : ℕ) → Change
  commit_tool : ToolRequest → Change
  publish : PublishRequest → Change
  elsewhere : Db → Change

-- A call that raises leaves the database as it was.
unfoldable pub change : Db → ℕ × Change → Db
change db (now, enqueue t) = after db (enqueue_async_task t now db)
change db (now, claim worker f limit lease locked) =
    (claim_pending_async_tasks worker f limit lease now locked db).1
change db (now, finish t) = update_async_task t now db
change db (now, requeue accepts kind limit) =
    after db (requeue_dead_async_tasks accepts kind limit now db)
change db (now, commit_tool q) = after db (commit_agent_workspace_tool q now db)
change db (now, publish q) = after db (commit_async_workspace_result q now db)
change db (now, elsewhere other) = record other { tasks = db.tasks }

unfoldable pub changes : Db → List (ℕ × Change) → Db
unfolding change
changes db [] = db
changes db (c ∷ cs) = changes (change db c) cs

-- A change that claims at a permitted time only, and is no `update_async_task` of the task itself.
module _ (may_claim : ℕ → Bool) (id : String) where
  abbrev pub Spares : ℕ × Change → Type 0
  Spares (now, enqueue t) = Unit
  Spares (now, claim worker f limit lease locked) = may_claim now ≡ true
  Spares (now, finish t) = (t.task_id == id) ≡ false
  Spares (now, requeue accepts kind limit) = Unit
  Spares (now, commit_tool q) = Unit
  Spares (now, publish q) = Unit
  Spares (now, elsewhere other) = Unit
