-- ===== src/Downloads/Retries.antt =====
-- Which download tasks the store lists for a retry, when, and what an upsert keeps.
use lit_trace.Base.{
  ℕ, ◌+◌, ◌-◌, ◌*◌, ◌/◌, ◌≤◌, ◌≡◌, refl, ◌∙◌, sym, true, false, List, [], ◌∷◌, arith, leb, select,
}
use native.Mathlib.Nat.{mul-le-mul_left}
use lit_trace.Base.All.{All, All-take, All-select, All-sort_by}
use lit_trace.StateDb.{second}
use lit_trace.Downloads.{
  DownloadTask, TaskRow, at, retryable, is_listed, list_retryable, payloads, base_delay,
  schedule_retry, awaits_run, is_auth_required, DownloadTaskStatus, planned, queued,
  fetching_source, auth_required, source_resolved, downloading, uploading_to_object_storage, stored,
  verified, failed, cancelled,
}

no_login : (s : DownloadTaskStatus) → awaits_run s ≡ true → is_auth_required s ≡ false
no_login queued h = refl
no_login failed h = refl
no_login planned h = cc
no_login fetching_source h = cc
no_login auth_required h = cc
no_login source_resolved h = cc
no_login downloading h = cc
no_login uploading_to_object_storage h = cc
no_login stored h = cc
no_login verified h = cc
no_login cancelled h = cc

-- The query of the store and the property of the task are the same test at the same time.
pub is_listed-retryable : (now : ℕ) (r : TaskRow) → is_listed now r ≡ retryable now r.payload
unfolding retryable
is_listed-retryable now r = ground (arith, no_login r.payload.status)

All-payloads :
    (P : DownloadTask → Type 0) (rs : List TaskRow)
    → All (λ r. P r.payload) rs
    → All P (payloads rs)
All-payloads P [] h = tt
All-payloads P (r ∷ rs) h = (h.0, All-payloads P rs h.1)

-- Every task that the store lists for a retry is retryable by its own property, when the clocks agree.
pub list_retryable-All :
    (limit now : ℕ) (rows : List TaskRow)
    → All (λ t. retryable now t ≡ true) (list_retryable limit now rows)
unfolding list_retryable
list_retryable-All limit now rows = All-payloads _ _ (
    All-take _ limit _ (
      All-sort_by _ (λ a b. leb a.payload.updated_at b.payload.updated_at)
        (select (is_listed now) rows)
        (All-select _ (is_listed now) rows (λ r h. sym (is_listed-retryable now r) ∙ h))))

-- Whole seconds of a base delay times a factor, in millionths, of at most 1.2.
jittered :
    (base factor : ℕ)
    → factor ≤ 1200000
    → 10 * (base * factor / 1000000 / 1000000 * 1000000) ≤ 12 * base
jittered base factor h = omega (arith, mul-le-mul_left base h)

-- For a draw of at most 1, a retry is scheduled within 1.2 times the delay of the attempts, and so
-- within 72 minutes.
schedule_retry_bounds :
    (base_delay_seconds random now : ℕ) (t : DownloadTask)
    → random ≤ 1000000
    → (due_at : ℕ) × ((schedule_retry base_delay_seconds random now t).retry_after ≡ at due_at)
      × (now ≤ due_at)
      × (10 * (due_at - now) ≤ 12 * base_delay base_delay_seconds t.attempt_count)
      × (due_at ≤ now + 4320 * second)
unfolding schedule_retry base_delay
schedule_retry_bounds base_delay_seconds random now t h =
    let base = base_delay base_delay_seconds t.attempt_count in
    let short : base ≤ 3600 * second = omega arith in
    let near = jittered base (800000 + 4 * random / 10) (omega arith) in
    (_, refl, omega arith, omega (arith, near), omega (arith, near, short))
