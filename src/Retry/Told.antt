-- ===== src/Retry/Told.antt =====
-- What the trace of a wrapped call says: its delays are what was slept, and their total is bounded.
use lit_trace.Base.{
  ℕ, zero, suc, ◌+◌, ◌-◌, ◌*◌, ◌≤◌, String, ◌≡◌, inl, inr, refl, ap, ◌∙◌, Bool, true, false, Option,
  none, some, List, [], ◌∷◌, ◌++◌, ◌&&◌, arith, ltb, if◌then◌else◌, length, length-append,
  Bool-cases,
}
use native.Mathlib.Nat.{mul-suc}
use lit_trace.Retry.{
  RetryConfig, RetryTrace, new_trace, compute_delay, Reply, Run, retryable, will_retry, delay_after,
  noted, slept, attempt_loop, run_wrapped,
}
use lit_trace.Retry.Delay.{compute_delay_bounds}
use lit_trace.Retry.Loop.{Reply-cases}

abbrev pub sum : List ℕ → ℕ
sum [] = 0
sum (x ∷ xs) = x + sum xs

sum-append : (xs : List ℕ) (x : ℕ) → sum (xs ++ x ∷ []) ≡ sum xs + x
sum-append [] x = omega arith
sum-append (y ∷ xs) x = omega (arith, sum-append xs x)

sum-slept :
    (more : Bool) (delay : ℕ) (sleeps : List ℕ)
    → (more ≡ false → delay ≡ 0)
    → sum (if more && ltb 0 delay then sleeps ++ delay ∷ [] else sleeps) ≡ sum sleeps + delay
sum-slept false delay sleeps h = let none_left = h refl in omega arith
sum-slept true zero sleeps h = omega arith
sum-slept true (suc delay) sleeps h =
    let pos : ltb 0 (suc delay) ≡ true = ground arith in rw pos (sum-append sleeps (suc delay))

idle :
    {T : Type 0} (config : RetryConfig T) (uniform : ℕ → ℕ) (again more : Bool) (n : ℕ)
    → more ≡ false
    → (if again && more then compute_delay uniform n config else 0) ≡ 0
idle config uniform true more n e = rw e refl
idle config uniform false more n e = refl

short :
    {T : Type 0} (config : RetryConfig T) (uniform : ℕ → ℕ) (again : Bool) (n : ℕ)
    → (if again then compute_delay uniform n config else 0) ≤ config.max_delay_seconds
short config uniform true n = (compute_delay_bounds uniform config n).0
short config uniform false n = omega arith

-- One more round's delay fits in one more maximum.
grown : (m n total delay : ℕ) → 1 ≤ n → total ≤ m * (n - 1) → delay ≤ m → total + delay ≤ m * n
grown m zero total delay a b c = absurd (omega arith)
grown m (suc n) total delay a b c =
    let less : suc n - 1 ≡ n = omega arith in omega (arith, mul-suc m n, rw less at b)

grown_next :
    (m n total delay : ℕ)
    → 1 ≤ n
    → total ≤ m * (n - 1)
    → delay ≤ m
    → total + delay ≤ m * (n + 1 - 1)
grown_next m n total delay a b c =
    let same : n + 1 - 1 ≡ n = omega arith in rw same (grown m n total delay a b c)

module _ {X A T : Type 0} (config : RetryConfig T) (uniform : ℕ → ℕ) (is_instance : X → T → Bool)
    (text : X → String) (func : ℕ → Reply X A) where
  -- The delays add up to the total, and that to what was slept; each failed call has its entry.
  pub record IsTold (r : Run X A) : Type 0 where
    pub total : sum r.sleeps ≡ r.trace.total_delay_seconds
    pub limited : r.trace.total_delay_seconds ≤ config.max_delay_seconds * r.calls
    pub errors : length r.trace.attempts ≡ (if r.trace.succeeded then r.calls - 1 else r.calls)

  loop-IsTold :
      (left attempt : ℕ) (trace : RetryTrace) (sleeps : List ℕ) (last : Option X)
      → 1 ≤ attempt
      → sum sleeps ≡ trace.total_delay_seconds
      → trace.total_delay_seconds ≤ config.max_delay_seconds * (attempt - 1)
      → length trace.attempts ≡ attempt - 1
      → trace.succeeded ≡ false
      → IsTold (attempt_loop config uniform is_instance text func left attempt trace sleeps last)
  unfolding attempt_loop
  loop-IsTold zero attempt trace sleeps last n t l e f = record {
    total = t;
    limited = l;
    errors = rw f e;
  }
  loop-IsTold (suc left) attempt trace sleeps last n t l e f = elim (Reply-cases (func attempt)) [
    | inl (a, v) ↦
        rw (v, attempt_loop)
          (record {
            total = t;
            limited = omega (
              arith,
              grown config.max_delay_seconds attempt trace.total_delay_seconds 0 n l (omega arith),
            );
            errors = e;
          })
    | inr (exc, v) ↦ elim (Bool-cases (retryable config is_instance exc)) [
      | inr final ↦
          rw (v, final, attempt_loop)
            (record {
              total = rw final (omega (arith, t));
              limited =
                  grown config.max_delay_seconds attempt trace.total_delay_seconds
                    (delay_after config uniform is_instance text func attempt exc) n l
                    (short config uniform
                      (will_retry config uniform is_instance text func attempt exc) (attempt + 1));
              errors = rw f (omega (arith, e, length-append trace.attempts (_ ∷ [])));
            })
      | inl again ↦
          rw (v, again, attempt_loop)
            (loop-IsTold left (attempt + 1)
              (noted config uniform is_instance text func attempt exc trace)
              (slept config uniform is_instance text func attempt exc sleeps) (some exc)
              (omega arith)
              (sum-slept (ltb attempt config.max_attempts)
                  (delay_after config uniform is_instance text func attempt exc) sleeps
                  (idle config uniform (retryable config is_instance exc)
                    (ltb attempt config.max_attempts) (attempt + 1))
                ∙ ap (λ k. k + delay_after config uniform is_instance text func attempt exc) t)
              (grown_next config.max_delay_seconds attempt trace.total_delay_seconds
                (delay_after config uniform is_instance text func attempt exc) n l
                (short config uniform (will_retry config uniform is_instance text func attempt exc)
                  (attempt + 1)))
              (omega (arith, e, length-append trace.attempts (_ ∷ []))) f)
    ]
  ]

  -- In the trace of every run the delays of the sleeps add up to total_delay_seconds, which is at most
  -- max_delay_seconds for each call, and there is one attempt for each call that failed.
  pub run_wrapped-IsTold :
      (op_name : String) → IsTold (run_wrapped config uniform is_instance text func op_name)
  unfolding run_wrapped
  run_wrapped-IsTold op_name =
      loop-IsTold config.max_attempts 1 (new_trace op_name) [] none (omega arith) refl (omega arith)
        refl refl
