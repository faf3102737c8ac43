-- ===== src/Jobs/Outbox/Promise.antt =====
-- What a dispatch leaves behind: each claimed row of the outbox is completed with its embedding job in the
-- queue, or it is failed or dead.
use lit_trace.Base.{
  ℕ, ◌+◌, String, ◌≡◌, refl, ◌⊎◌, inl, inr, true, false, List, [], ◌∷◌, ◌==◌, arith, eq_iff, exists,
  length, ltb, Bool-cases,
}
use lit_trace.Base.All.{All}
use lit_trace.Base.Table.{exists-find}
use lit_trace.Json.{Json}
use lit_trace.StateDb.{AsyncTask, TaskStatus, completed, failed, dead, Db, Result, ok, err, Error}
use lit_trace.StateDb.Queue.{same_work, enqueue_async_task, update_async_task}
use lit_trace.StateDb.Queue.Keys.{IsKeyed, IsFresh}
use lit_trace.StateDb.Queue.Idempotent.{enqueue_found}
use lit_trace.Jobs.{RetryPolicy, failed_job}
use lit_trace.Jobs.Outbox.{
  Report, embedding_job, dispatched_row, undispatched_row, dispatch_one, dispatch_rows,
}
use lit_trace.StateDb.Queue.Evolution.{
  HasStatus, Evolves, both, enqueue-Evolves, update-Evolves, update_works, update-HasStatus,
  update-HasStatus_of, HasStatus-eq,
}

Result-cases : {A : Type 0} (r : Result A) → ((a : A) × (r ≡ ok a)) ⊎ ((e : Error) × (r ≡ err e))
Result-cases (ok a) = inl (a, refl)
Result-cases (err e) = inr (e, refl)

failed_job-task_id :
    (error : String) (policy : RetryPolicy) (now : ℕ) (t : AsyncTask)
    → (failed_job error policy now t).task_id ≡ t.task_id
unfolding failed_job
failed_job-task_id error policy now t = ground arith

failed_job-status :
    (error : String) (policy : RetryPolicy) (now : ℕ) (t : AsyncTask)
    → ((failed_job error policy now t).status ≡ failed)
      ⊎ ((failed_job error policy now t).status ≡ dead)
unfolding failed_job
failed_job-status error policy now t = elim (Bool-cases (ltb t.attempt_count policy.max_attempts)) [
  | inl again ↦ rw again (inl refl)
  | inr spent ↦ rw spent (inr refl)
]

module _ (digest : List String → String) (str_of : Json → String) (policy : RetryPolicy)
    (error_text : Error → String) (now : ℕ) where
  -- A row is completed with its embedding job in the queue, or it is failed, or dead.
  pub data IsSettled (db : Db) (r : AsyncTask) : Type 0 where
    dispatched :
        HasStatus completed db r.task_id
        → exists (same_work (embedding_job digest str_of now r)) db.tasks ≡ true
        → IsSettled db r
    to_retry : HasStatus failed db r.task_id → IsSettled db r
    given_up : HasStatus dead db r.task_id → IsSettled db r

  IsSettled-Evolves :
      (db db' : Db) (r : AsyncTask) → Evolves r.task_id db db' → IsSettled db r → IsSettled db' r
  IsSettled-Evolves db db' r e (dispatched s w) =
      dispatched (e.rows completed s) (e.works (embedding_job digest str_of now r) w)
  IsSettled-Evolves db db' r e (to_retry s) = to_retry (e.rows failed s)
  IsSettled-Evolves db db' r e (given_up s) = given_up (e.rows dead s)

  abbrev dispatched_one : AsyncTask → Db × Report → Db × Report
  dispatched_one r s = dispatch_one digest str_of policy error_text now r s

  dispatch_one-IsSettled :
      (r : AsyncTask) (db : Db) (report : Report) (s : TaskStatus)
      → HasStatus s db r.task_id
      → IsSettled (dispatched_one r (db, report)).0 r
        × ((dispatched_one r (db, report)).1.dispatched + (dispatched_one r (db, report)).1.failed
            ≡ report.dispatched + report.failed + 1)
  unfolding dispatch_one
  dispatch_one-IsSettled r db report s h =
      elim (Result-cases (enqueue_async_task (embedding_job digest str_of now r) now db)) [
        | inl ((p, db'), e) ↦
            rw (dispatch_one, e)
              (
                (let (w, f, k) = enqueue_found (embedding_job digest str_of now r) p now db db' e in
                    let kept =
                      enqueue-Evolves (embedding_job digest str_of now r) now db p db' r.task_id
                        e in
                    dispatched (update-HasStatus (dispatched_row now r) now db' s (kept.rows s h)) (
                      update_works (dispatched_row now r) (embedding_job digest str_of now r) now
                        db' (exists-find _ _ w f))),
                omega arith,
              )
        | inr (error, e) ↦
            rw (dispatch_one, e)
              (
                (let row = undispatched_row error_text policy now error r in
                    let written =
                      update-HasStatus_of row r.task_id now db s
                        (failed_job-task_id (error_text error) policy now r) h in
                    elim (failed_job-status (error_text error) policy now r) [
                      | inl again ↦
                          to_retry
                            (HasStatus-eq (update_async_task row now db) r.task_id again written)
                      | inr spent ↦
                          given_up
                            (HasStatus-eq (update_async_task row now db) r.task_id spent written)
                    ]),
                omega arith,
              )
      ]

  dispatch_one-Evolves :
      (r : AsyncTask) (db : Db) (report : Report) (id : String)
      → (r.task_id == id) ≡ false
      → Evolves id db (dispatched_one r (db, report)).0
  unfolding dispatch_one
  dispatch_one-Evolves r db report id n =
      elim (Result-cases (enqueue_async_task (embedding_job digest str_of now r) now db)) [
        | inl ((p, db'), e) ↦
            rw (dispatch_one, e)
              (both (enqueue-Evolves (embedding_job digest str_of now r) now db p db' id e)
                (update-Evolves (dispatched_row now r) now db' id n))
        | inr (error, e) ↦
            rw (dispatch_one, e)
              (update-Evolves (undispatched_row error_text policy now error r) now db id
                (rw (failed_job-task_id (error_text error) policy now r) n))
      ]

  abbrev dispatched_all : List AsyncTask → Db × Report → Db × Report
  dispatched_all rs s = dispatch_rows digest str_of policy error_text now rs s

  -- The rows stand in the table, each with some status.
  abbrev pub AreThere : Db → List AsyncTask → Type 0
  AreThere db rs = All (λ r. (s : TaskStatus) × HasStatus s db r.task_id) rs

  AreThere-Evolves :
      (r : AsyncTask) (db : Db) (report : Report) (rs : List AsyncTask)
      → All (IsFresh r) rs
      → AreThere db rs
      → AreThere (dispatched_one r (db, report)).0 rs
  AreThere-Evolves r db report [] k h = tt
  AreThere-Evolves r db report (q ∷ rs) k ((s, h), hs) = (
    (s, (dispatch_one-Evolves r db report q.task_id (flipped r q k.0)).rows s h),
    AreThere-Evolves r db report rs k.1 hs,
  )
    where
      flipped : (r q : AsyncTask) → IsFresh r q → (r.task_id == q.task_id) ≡ false
      flipped r q f =
          ground (arith, f.other_id, eq_iff r.task_id q.task_id, eq_iff q.task_id r.task_id)

  dispatch_rows-IsSettled :
      (r : AsyncTask) (rs : List AsyncTask) (s : Db × Report)
      → All (IsFresh r) rs
      → IsSettled s.0 r
      → IsSettled (dispatched_all rs s).0 r
  unfolding dispatch_rows
  dispatch_rows-IsSettled r [] s k h = h
  dispatch_rows-IsSettled r (q ∷ rs) s k h =
      dispatch_rows-IsSettled r rs (dispatched_one q s) k.1
        (IsSettled-Evolves s.0 _ r (dispatch_one-Evolves q s.0 s.1 r.task_id k.0.other_id) h)

  -- The claimed rows, distinct and in the table: after the dispatch each of them is completed and its embedding job is
  -- in the queue, or it is failed or dead; and the report counts each of them once.
  pub dispatch_rows-AreSettled :
      (rs : List AsyncTask) (db : Db) (report : Report)
      → IsKeyed rs
      → AreThere db rs
      → All (IsSettled (dispatched_all rs (db, report)).0) rs
        × ((dispatched_all rs (db, report)).1.dispatched + (dispatched_all rs (db, report)).1.failed
            ≡ report.dispatched + report.failed + length rs)
  unfolding dispatch_rows
  dispatch_rows-AreSettled [] db report k h = (tt, omega arith)
  dispatch_rows-AreSettled (r ∷ rs) db report k ((s, h), hs) =
      let (settled, one) = dispatch_one-IsSettled r db report s h in
      let next = dispatched_one r (db, report) in
      let (rest, counts) =
        dispatch_rows-AreSettled rs next.0 next.1 k.1 (AreThere-Evolves r db report rs k.0 hs) in
      ((dispatch_rows-IsSettled r rs next k.0 settled, rest), omega (arith, counts, one))
