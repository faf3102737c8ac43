-- ===== src/Retry.antt =====
-- retry.py: the retry decorator with its backoff.
-- Delays are natural numbers of microseconds, where the source has floats of seconds.
pub mod Delay
pub mod Loop
pub mod Told
pub mod Traces
pub mod Tracker
pub mod Samples
use lit_trace.Base.{
  ℕ, zero, suc, ◌+◌, ◌-◌, ◌*◌, ◌/◌, ◌^◌, String, Bool, true, false, not, Option, none, some, List,
  [], ◌∷◌, ◌++◌, ◌&&◌, min, leb, ltb, nat_eq, if◌then◌else◌, length, drop, map, select,
}

pub data BackoffStrategy : Type 0 where
  linear exponential fixed jittered : BackoffStrategy

-- `RetryConfig`; `T` are the exception types.
pub record RetryConfig (T : Type 0) : Type 0 where
  pub max_attempts : ℕ
  pub backoff_strategy : BackoffStrategy
  pub base_delay_seconds : ℕ
  pub max_delay_seconds : ℕ
  pub retry_status_codes : List ℕ
  pub retry_on : List T

pub record RetryAttempt : Type 0 where
  pub attempt : ℕ
  pub error : String
  pub delay_seconds : ℕ
  pub will_retry : Bool

pub record RetryTrace : Type 0 where
  pub operation : String
  pub attempts : List RetryAttempt
  pub succeeded : Bool
  pub total_delay_seconds : ℕ

abbrev pub new_trace : String → RetryTrace
new_trace op = record { operation = op; attempts = []; succeeded = false; total_delay_seconds = 0 }

-- `max(len(self.attempts) - 1, 0)`, and 0 for no attempt
unfoldable pub retry_count : RetryTrace → ℕ
retry_count t = length t.attempts - 1

unfoldable pub failed : RetryTrace → Bool
failed t = not t.succeeded && leb 1 (length t.attempts)

-- The delay before the cap; `uniform hi` is a draw of `random.uniform(0, hi)`.
unfoldable pub raw_delay : (ℕ → ℕ) → BackoffStrategy → (base n : ℕ) → ℕ
raw_delay uniform fixed base n = base
raw_delay uniform linear base n = base * n
raw_delay uniform exponential base n = base * 2 ^ (n - 1)
raw_delay uniform jittered base n =
    let delay = base * 2 ^ (n - 1) in delay / 2 + uniform (delay / 2)

unfoldable pub compute_delay : {T : Type 0} → (ℕ → ℕ) → ℕ → RetryConfig T → ℕ
unfolding raw_delay
compute_delay uniform attempt config =
    if leb attempt 1
    then 0
    else min (raw_delay uniform config.backoff_strategy config.base_delay_seconds (attempt - 1))
        config.max_delay_seconds

abbrev pub holds_for : {A : Type 0} → (A → Bool) → List A → Bool
holds_for p [] = false
holds_for p (x ∷ xs) = if p x then true else holds_for p xs

abbrev pub is_code : Option ℕ → List ℕ → Bool
is_code none codes = false
is_code (some status) codes = holds_for (λ c. nat_eq c status) codes

-- `is_instance` is Python's `isinstance` of an exception and a type.
unfoldable pub should_retry : {X T : Type 0} → (X → T → Bool) → X → RetryConfig T → Option ℕ → Bool
should_retry is_instance exc config status =
    if is_code status config.retry_status_codes
    then true
    else holds_for (is_instance exc) config.retry_on

-- How a wrapped call ends: it returns, it raises, or its `assert last_exc is not None` fails.
pub data Outcome (X A : Type 0) : Type 0 where
  returned : A → Outcome X A
  raised : X → Outcome X A
  assertion_error : Outcome X A

-- One call of the wrapped function.
pub data Reply (X A : Type 0) : Type 0 where
  value : A → Reply X A
  exception : X → Reply X A

-- A run of the wrapper: how it ends, its trace, the sleeps in their order, the number of calls.
pub record Run (X A : Type 0) : Type 0 where
  pub outcome : Outcome X A
  pub trace : RetryTrace
  pub sleeps : List ℕ
  pub calls : ℕ

abbrev pub last_error : {X A : Type 0} → Option X → Outcome X A
last_error none = assertion_error
last_error (some exc) = raised exc

abbrev pub retryable : {X T : Type 0} → RetryConfig T → (X → T → Bool) → X → Bool
retryable config is_instance exc = should_retry is_instance exc config none

-- What the wrapper is given: the configuration, the draws, `isinstance`, the text of an exception, and
-- what the wrapped function does at its n-th call.
module _ {X A T : Type 0} (config : RetryConfig T) (uniform : ℕ → ℕ) (is_instance : X → T → Bool)
    (text : X → String) (func : ℕ → Reply X A) where
  abbrev pub will_retry : ℕ → X → Bool
  will_retry attempt exc = retryable config is_instance exc && ltb attempt config.max_attempts

  abbrev pub delay_after : ℕ → X → ℕ
  delay_after attempt exc =
      if will_retry attempt exc then compute_delay uniform (attempt + 1) config else 0

  -- `trace.attempts.append(…)` and `trace.total_delay_seconds += delay`
  abbrev pub noted : ℕ → X → RetryTrace → RetryTrace
  noted attempt exc trace = record trace {
    attempts =
        trace.attempts
        ++ record {
          attempt = attempt;
          error = text exc;
          delay_seconds = delay_after attempt exc;
          will_retry = will_retry attempt exc;
        }
          ∷ [];
    total_delay_seconds = trace.total_delay_seconds + delay_after attempt exc;
  }

  -- `if attempt < cfg.max_attempts: … if delay > 0: sleep(delay)`
  abbrev pub slept : ℕ → X → List ℕ → List ℕ
  slept attempt exc sleeps =
      let delay = delay_after attempt exc in
      if ltb attempt config.max_attempts && ltb 0 delay then sleeps ++ delay ∷ [] else sleeps

  -- The `for attempt in range(1, cfg.max_attempts + 1)` loop, by the rounds that are left.
  unfoldable pub attempt_loop : ℕ → ℕ → RetryTrace → List ℕ → Option X → Run X A
  attempt_loop zero attempt trace sleeps last = record {
    outcome = last_error last;
    trace = trace;
    sleeps = sleeps;
    calls = attempt - 1;
  }
  attempt_loop (suc left) attempt trace sleeps last = elim (func attempt) [
    | value a ↦ record {
      outcome = returned a;
      trace = record trace { succeeded = true };
      sleeps = sleeps;
      calls = attempt;
    }
    | exception exc ↦ elim (retryable config is_instance exc) [
      | false ↦ record {
        outcome = raised exc;
        trace = noted attempt exc trace;
        sleeps = sleeps;
        calls = attempt;
      }
      | true ↦
          attempt_loop left (attempt + 1) (noted attempt exc trace) (slept attempt exc sleeps)
            (some exc)
    ]
  ]

  unfoldable pub run_wrapped : String → Run X A
  unfolding attempt_loop
  run_wrapped op_name = attempt_loop config.max_attempts 1 (new_trace op_name) [] none
