-- ===== src/Retry/Delay.antt =====
-- Bounds on the delay between two attempts, and how it grows.
use lit_trace.Base.{
  ℕ, ◌+◌, ◌-◌, ◌*◌, ◌/◌, ◌^◌, ◌≤◌, ◌≡◌, ◌≢◌, refl, arith, leb, Bool-cases, inl, inr,
}
use native.Mathlib.Nat.{mul-le-mul_left, pow-le-pow_right}
use lit_trace.Retry.{
  BackoffStrategy, linear, exponential, fixed, jittered, RetryConfig, raw_delay, compute_delay,
}

times_mono : (base p q : ℕ) → p ≤ q → base * p ≤ base * q
times_mono base p q h = mul-le-mul_left base h

raw_delay_mono :
    (uniform : ℕ → ℕ) (s : BackoffStrategy) (base n k : ℕ)
    → s ≢ jittered
    → raw_delay uniform s base n ≤ raw_delay uniform s base (n + k)
unfolding raw_delay
raw_delay_mono uniform fixed base n k h = omega arith
raw_delay_mono uniform linear base n k h = times_mono base n (n + k) (omega arith)
raw_delay_mono uniform exponential base n k h =
    times_mono base (2 ^ (n - 1)) (2 ^ (n + k - 1)) (pow-le-pow_right (omega arith) (omega arith))
raw_delay_mono uniform jittered base n k h = absurd (h refl)

module _ {T : Type 0} (uniform : ℕ → ℕ) (config : RetryConfig T) where
  -- Every delay is within the configured maximum, and the first attempt has none.
  pub compute_delay_bounds :
      (attempt : ℕ)
      → (compute_delay uniform attempt config ≤ config.max_delay_seconds)
        × (compute_delay uniform 1 config ≡ 0)
  unfolding compute_delay
  compute_delay_bounds attempt = ground arith

  -- Without jitter a later attempt waits at least as long as an earlier one.
  compute_delay_mono :
      (attempt k : ℕ)
      → config.backoff_strategy ≢ jittered
      → compute_delay uniform attempt config ≤ compute_delay uniform (attempt + k) config
  unfolding compute_delay
  compute_delay_mono attempt k h = elim (Bool-cases (leb attempt 1)) [
    | inl first ↦ rw first (omega arith)
    | inr late ↦
        let grows =
          raw_delay_mono uniform config.backoff_strategy config.base_delay_seconds (attempt - 1) k
            h in
        let next : attempt - 1 + k ≡ attempt + k - 1 = ground arith in
        ground (arith, rw next at grows)
  ]

  -- With jitter, whose draws are within their range, the delay lies between the half of the
  -- exponential one, less a unit, and the whole of it.
  jittered_bounds :
      (attempt : ℕ)
      → ((hi : ℕ) → uniform hi ≤ hi)
      → let plain =
          compute_delay uniform attempt (record config { backoff_strategy = exponential }) in
        let drawn = compute_delay uniform attempt (record config { backoff_strategy = jittered }) in
        (drawn ≤ plain) × (plain ≤ 2 * drawn + 1)
  unfolding compute_delay
  jittered_bounds attempt h =
      let raw = config.base_delay_seconds * 2 ^ (attempt - 1 - 1) in ground (arith, h (raw / 2))
