-- ===== src/Jobs/Compaction/Driver.antt =====
-- What a batch of compaction jobs leaves behind, and how the attempts of a job are counted.
use lit_trace.Base.{
  ℕ, ◌+◌, ◌-◌, ◌*◌, ◌≤◌, ◌<◌, String, ◌≡◌, refl, ◌⊎◌, inl, inr, Bool, true, false, Option, none,
  some, List, [], ◌∷◌, arith, length, max, Bool-cases, length-append,
}
use lit_trace.StateDb.{AsyncTask, BindingRow, Db, Error, second}
use lit_trace.StateDb.Queue.{is_claimable, grant, claim_pending_async_tasks}
use lit_trace.StateDb.Binding.{get_agent_thread_binding}
use lit_trace.Jobs.{RetryPolicy}
use lit_trace.Jobs.Attempts.{Failure}
use lit_trace.Jobs.Compaction.{
  failed_task, JobReport, compact_one, run_task, run_tasks, run_bound, finish, skip, is_live,
  compaction_filter, run_pending_compaction,
}

-- A claimed compaction job whose run fails.
unfoldable pub fail_compaction : RetryPolicy → Failure → AsyncTask → AsyncTask
unfolding failed_task
fail_compaction policy f t =
    failed_task f.error policy (f.claimed_at + f.took) (grant f.worker f.claimed_at f.lease t)

fail_compaction-attempt_count :
    (policy : RetryPolicy) (f : Failure) (t : AsyncTask)
    → (fail_compaction policy f t).attempt_count ≡ t.attempt_count + 2
unfolding fail_compaction failed_task
fail_compaction-attempt_count policy f t = ground arith

fail_compaction_claimable :
    (policy : RetryPolicy) (f : Failure) (t : AsyncTask) (later : ℕ)
    → is_claimable later (fail_compaction policy f t) ≡ true
    → t.attempt_count + 2 < policy.max_attempts
unfolding fail_compaction failed_task is_claimable
fail_compaction_claimable policy f t later h = ground (arith, h)

-- Every run starts with a claim that the queue grants.
abbrev pub CompactionClaims : RetryPolicy → List Failure → AsyncTask → Type 0
CompactionClaims policy [] t = Unit
CompactionClaims policy (f ∷ fs) t =
    (is_claimable f.claimed_at t ≡ true) × CompactionClaims policy fs (fail_compaction policy f t)

claims_halved :
    (policy : RetryPolicy) (fs : List Failure) (f : Failure) (t : AsyncTask)
    → CompactionClaims policy fs (fail_compaction policy f t)
    → 2 * length fs ≤ policy.max_attempts - (t.attempt_count + 1)
claims_halved policy [] f t h = omega arith
claims_halved policy (g ∷ fs) f t h = omega (
  arith,
  claims_halved policy fs g (fail_compaction policy f t) h.1,
  fail_compaction-attempt_count policy f t,
  fail_compaction_claimable policy f t g.claimed_at h.0,
)

-- The claim and the failure both count: a new compaction job whose runs all fail is claimed at most
-- half as often, rounded up, as max_attempts says, and once where that is 0.
pub compaction_attempts_halved :
    (policy : RetryPolicy) (fs : List Failure) (t : AsyncTask)
    → t.attempt_count ≡ 0
    → CompactionClaims policy fs t
    → 2 * length fs ≤ max policy.max_attempts 1 + 1
compaction_attempts_halved policy [] t n h = omega arith
compaction_attempts_halved policy (f ∷ fs) t n h = omega (arith, claims_halved policy fs f t h.1)

module _ (rpc : String → Option String) (error_text : Error → String) (policy : RetryPolicy)
    (now : ℕ) where
  -- A report counts so many more tasks, each of them once.
  pub record IsCounted (n : ℕ) (before after : JobReport) : Type 0 where
    pub all : after.enqueued ≡ before.enqueued + n
    pub each :
        after.succeeded + after.failed + length after.warnings
        ≡ before.succeeded + before.failed + length before.warnings + n

  finish-IsCounted :
      (t : AsyncTask) (db : Db) (report : JobReport) (o : String ⊎ Db)
      → IsCounted 1 report (finish rpc error_text policy now t (db, report) o).1
  finish-IsCounted t db report (inl error) = record { all = refl; each = omega arith }
  finish-IsCounted t db report (inr db') = record { all = refl; each = omega arith }

  skip-IsCounted :
      (t : AsyncTask) (status : String) (s : Db × JobReport)
      → IsCounted 1 s.1 (skip rpc error_text policy now t status s).1
  skip-IsCounted t status (db, report) = record {
    all = refl;
    each = omega (arith, length-append report.warnings (_ ∷ []));
  }

  run_bound-IsCounted :
      (t : AsyncTask) (b : Option BindingRow) (s : Db × JobReport)
      → IsCounted 1 s.1 (run_bound rpc error_text policy now t b s).1
  run_bound-IsCounted t none s = skip-IsCounted t "no-binding" s
  run_bound-IsCounted t (some b) (db, report) =
      elim (Bool-cases (is_live rpc error_text policy now b)) [
        | inl live ↦
            rw live (finish-IsCounted t db report (compact_one rpc error_text policy now b db))
        | inr ended ↦ rw ended (skip-IsCounted t b.status (db, report))
      ]

  run_tasks-IsCounted :
      (ts : List AsyncTask) (s : Db × JobReport)
      → IsCounted (length ts) s.1 (run_tasks rpc error_text policy now ts s).1
  unfolding run_tasks run_task
  run_tasks-IsCounted [] s = record { all = omega arith; each = omega arith }
  run_tasks-IsCounted (t ∷ ts) s =
      let one = run_bound-IsCounted t (get_agent_thread_binding t.session_id s.0) s in
      let rest = run_tasks-IsCounted ts (run_task rpc error_text policy now t s) in
      record { all = omega (arith, one.all, rest.all); each = omega (arith, one.each, rest.each) }

  -- The report of a batch counts every claimed job as enqueued, and exactly once as succeeded,
  -- failed or skipped with a warning; a disabled batch leaves the database as it was.
  run_pending_compaction-IsCounted :
      (limit : ℕ) (locked : String → Bool) (db : Db)
      → let claimed =
          (claim_pending_async_tasks "compaction" compaction_filter limit
            (300 * second)
            now
            locked
            db).0 in
        let report = (run_pending_compaction rpc error_text policy now true limit locked db).1 in
        (report.enqueued ≡ length claimed)
        × (report.succeeded + report.failed + length report.warnings ≡ length claimed)
        × ((run_pending_compaction rpc error_text policy now false limit locked db).0 ≡ db)
  unfolding run_pending_compaction
  run_pending_compaction-IsCounted limit locked db =
      let (claimed, db') =
        claim_pending_async_tasks "compaction" compaction_filter limit (300 * second) now locked
          db in
      let counted =
        run_tasks-IsCounted claimed
          (db', record { enqueued = 0; succeeded = 0; failed = 0; warnings = [] }) in
      (omega (arith, counted.all), omega (arith, counted.each), refl)
