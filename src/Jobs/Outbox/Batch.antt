-- ===== src/Jobs/Outbox/Batch.antt =====
-- A whole dispatch: the claim of the rows and what becomes of them.
use lit_trace.Base.{
  ℕ, String, ◌≡◌, refl, Bool, true, Option, List, [], ◌∷◌, ◌+◌, ◌*◌, arith, find, exists, select,
  update, length, Option-cases, Bool-cases, inl, inr,
}
use lit_trace.Base.All.{All, All-mono, All-select_all}
use lit_trace.Base.Table.{exists-find-none}
use lit_trace.Json.{Json}
use lit_trace.StateDb.{AsyncTask, TaskStatus, Db, Error, task_of, second}
use lit_trace.StateDb.Queue.{claim_pending_async_tasks, claim_ids, any_of, grant}
use lit_trace.StateDb.Queue.Keys.{IsKeyed, IsFresh, IsKeyed-update, grant-KeepsKeys}
use lit_trace.StateDb.Queue.Eligible.{exists_self}
use lit_trace.Jobs.{RetryPolicy}
use lit_trace.Jobs.Outbox.{outbox_filter, dispatch_embedding_outbox}
use lit_trace.StateDb.Queue.Evolution.{HasStatus}
use lit_trace.Jobs.Outbox.Promise.{IsSettled, dispatch_rows-AreSettled}

IsKeyed-select : (p : AsyncTask → Bool) (ts : List AsyncTask) → IsKeyed ts → IsKeyed (select p ts)
unfolding select
IsKeyed-select p [] h = tt
IsKeyed-select p (t ∷ ts) h = elim (Bool-cases (p t)) [
  | inl taken ↦ rw taken (All-select_all (IsFresh t) p ts h.0, IsKeyed-select p ts h.1)
  | inr left ↦ rw left (IsKeyed-select p ts h.1)
]

there :
    (db : Db) (t : AsyncTask)
    → exists (task_of t.task_id) db.tasks ≡ true
    → (s : TaskStatus) × HasStatus s db t.task_id
there db t e = elim (Option-cases (find (task_of t.task_id) db.tasks)) [
  | inl missing ↦ ground (arith, e, exists-find-none (task_of t.task_id) db.tasks missing)
  | inr (u, f) ↦ (u.status, (u, f, refl))
]

module _ (digest : List String → String) (str_of : Json → String) (policy : RetryPolicy)
    (error_text : Error → String) (now : ℕ) where
  -- A dispatch of the outbox, on a queue where both indices are unique, whatever its limit and its
  -- filters: each row that it claims ends completed with its embedding job in the queue, or failed,
  -- or dead, and its report counts every claimed row once.
  pub dispatch_embedding_outbox-AreSettled :
      (worker : String) (limit : ℕ) (session_id : Option String)
      (artifact_ids : Option (List String)) (locked : String → Bool) (db : Db)
      → IsKeyed db.tasks
      → let claimed =
          (claim_pending_async_tasks worker
            (outbox_filter session_id artifact_ids)
            limit
            (300 * second)
            now
            locked
            db).0 in
        let (db', report) =
          dispatch_embedding_outbox digest str_of policy error_text now worker limit session_id
            artifact_ids locked db in
        All (IsSettled digest str_of policy error_text now db') claimed
        × (report.dispatched + report.failed ≡ length claimed)
  unfolding dispatch_embedding_outbox claim_pending_async_tasks
  dispatch_embedding_outbox-AreSettled worker limit session_id artifact_ids locked db h =
      let ids = claim_ids (outbox_filter session_id artifact_ids) limit now locked db.tasks in
      let tasks = update (any_of ids) (grant worker now (300 * second)) db.tasks in
      let db' = record db { tasks = tasks } in
      let keyed =
        IsKeyed-update (any_of ids) (grant worker now (300 * second))
          (grant-KeepsKeys worker now (300 * second)) db.tasks h in
      let (settled, counted) =
        dispatch_rows-AreSettled digest str_of policy error_text now (select (any_of ids) tasks) db'
          (record { dispatched = 0; failed = 0; warnings = [] })
          (IsKeyed-select (any_of ids) tasks keyed)
          (All-select_all _ (any_of ids) tasks
            (All-mono _ _ tasks (λ t e. there db' t e) (exists_self tasks))) in
      (settled, omega (arith, counted))
