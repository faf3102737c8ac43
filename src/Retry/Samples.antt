-- ===== src/Retry/Samples.antt =====
-- The theorems about the retry decorator at a function that fails twice.
use lit_trace.Base.{ℕ, ◌-◌, String, Bool, true, [], ◌∷◌, ltb, if◌then◌else◌}
use lit_trace.Retry.{RetryConfig, exponential, Reply, value, exception, run_wrapped}
use lit_trace.Retry.Loop.{IsSound, run_wrapped-IsSound}
use lit_trace.Retry.Told.{IsTold, run_wrapped-IsTold}

abbrev config : RetryConfig String
config = record {
  max_attempts = 4;
  backoff_strategy = exponential;
  base_delay_seconds = 1000000;
  max_delay_seconds = 60000000;
  retry_status_codes = 429 ∷ [];
  retry_on = "TimeoutError" ∷ [];
}

abbrev half : ℕ → ℕ
half hi = hi - hi

abbrev is_same : String → String → Bool
is_same exc type = true

abbrev itself : String → String
itself s = s

abbrev third_time : ℕ → Reply String ℕ
third_time n = if ltb n 3 then exception "TimeoutError" else value 7

run_wrapped-IsSound_example :
    IsSound config half is_same itself third_time
      (run_wrapped config half is_same itself third_time "fetch")
run_wrapped-IsSound_example = run_wrapped-IsSound config half is_same itself third_time "fetch"

run_wrapped-IsTold_example :
    IsTold config half is_same itself third_time
      (run_wrapped config half is_same itself third_time "fetch")
run_wrapped-IsTold_example = run_wrapped-IsTold config half is_same itself third_time "fetch"
