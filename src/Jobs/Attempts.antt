-- ===== src/Jobs/Attempts.antt =====
-- How often a job is run: its claims and its failures, until it is dead.
use lit_trace.Base.{
  ℕ, ◌+◌, ◌-◌, ◌≤◌, String, ◌≡◌, refl, true, List, [], ◌∷◌, ◌&&◌, arith, ltb, leb, max, ◌++◌,
  length,
}
use lit_trace.StateDb.{AsyncTask}
use lit_trace.StateDb.Queue.{is_claimable, grant}
use lit_trace.Jobs.{RetryPolicy, backoff, failed_job, deferred}

-- A run of a job that fails: when it is claimed, for how long, how long it takes, and the error.
pub record Failure : Type 0 where
  pub worker : String
  pub claimed_at : ℕ
  pub lease : ℕ
  pub took : ℕ
  pub error : String

unfoldable pub fail_once : RetryPolicy → Failure → AsyncTask → AsyncTask
unfolding failed_job
fail_once policy f t =
    failed_job f.error policy (f.claimed_at + f.took) (grant f.worker f.claimed_at f.lease t)

unfoldable pub fail_all : RetryPolicy → List Failure → AsyncTask → AsyncTask
fail_all policy [] t = t
fail_all policy (f ∷ fs) t = fail_all policy fs (fail_once policy f t)

fail_once-attempt_count :
    (policy : RetryPolicy) (f : Failure) (t : AsyncTask)
    → (fail_once policy f t).attempt_count ≡ t.attempt_count + 1
unfolding fail_once failed_job
fail_once-attempt_count policy f t = ground arith

fail_once_claimable :
    (policy : RetryPolicy) (f : Failure) (t : AsyncTask) (later : ℕ)
    → is_claimable later (fail_once policy f t) ≡ (
        ltb (t.attempt_count + 1) policy.max_attempts
        && leb (f.claimed_at + f.took + backoff policy (t.attempt_count + 1)) later)
unfolding fail_once failed_job is_claimable
fail_once_claimable policy f t later = ground arith

fail_all-attempt_count :
    (policy : RetryPolicy) (fs : List Failure) (t : AsyncTask)
    → (fail_all policy fs t).attempt_count ≡ t.attempt_count + length fs
unfolding fail_all
fail_all-attempt_count policy [] t = omega arith
fail_all-attempt_count policy (f ∷ fs) t = omega (
  arith,
  fail_all-attempt_count policy fs (fail_once policy f t),
  fail_once-attempt_count policy f t,
)

fail_all-append :
    (policy : RetryPolicy) (fs : List Failure) (f : Failure) (t : AsyncTask)
    → fail_all policy (fs ++ f ∷ []) t ≡ fail_once policy f (fail_all policy fs t)
unfolding fail_all
fail_all-append policy [] f t = refl
fail_all-append policy (g ∷ fs) f t = fail_all-append policy fs f (fail_once policy g t)

-- A job that failed in every one of its runs, however many: it is claimable exactly when fewer than
-- max_attempts runs were counted and the delay of the last one has passed since that run ended.
fail_all_claimable :
    (policy : RetryPolicy) (fs : List Failure) (f : Failure) (t : AsyncTask) (later : ℕ)
    → let runs = t.attempt_count + length fs + 1 in
      is_claimable later (fail_all policy (fs ++ f ∷ []) t)
      ≡ (ltb runs policy.max_attempts && leb (f.claimed_at + f.took + backoff policy runs) later)
fail_all_claimable policy fs f t later =
    rw
      (
        fail_all-append policy fs f t,
        fail_once_claimable policy f (fail_all policy fs t) later,
        fail_all-attempt_count policy fs t,
      )
      refl

-- Every run starts with a claim that the queue grants.
abbrev pub Claims : RetryPolicy → List Failure → AsyncTask → Type 0
Claims policy [] t = Unit
Claims policy (f ∷ fs) t =
    (is_claimable f.claimed_at t ≡ true) × Claims policy fs (fail_once policy f t)

runs_left :
    (policy : RetryPolicy) (fs : List Failure) (f : Failure) (t : AsyncTask)
    → Claims policy fs (fail_once policy f t)
    → length fs ≤ policy.max_attempts - (t.attempt_count + 1)
runs_left policy [] f t h = omega arith
runs_left policy (g ∷ fs) f t h =
    let rest = runs_left policy fs g (fail_once policy f t) h.1 in
    ground (
      arith,
      rest,
      h.0,
      fail_once_claimable policy f t g.claimed_at,
      fail_once-attempt_count policy f t,
    )

-- A new job whose runs all fail is claimed at most max_attempts times, and once where that is 0.
pub attempts_bounded :
    (policy : RetryPolicy) (fs : List Failure) (t : AsyncTask)
    → t.attempt_count ≡ 0
    → Claims policy fs t
    → length fs ≤ max policy.max_attempts 1
attempts_bounded policy [] t n h = omega arith
attempts_bounded policy (f ∷ fs) t n h = omega (arith, runs_left policy fs f t h.1)

-- A deferred embedding job is claimable at once: its delay of five seconds is not looked at for a queued row.
pub deferred_claimable :
    (now later : ℕ) (t : AsyncTask) → is_claimable later (deferred now t) ≡ true
unfolding deferred is_claimable
deferred_claimable now later t = refl
