-- ===== src/Retry/Loop.antt =====
-- What a wrapped call does: how it ends, how often it calls, and what its trace says.
use lit_trace.Base.{
  ℕ, zero, suc, ◌+◌, ◌-◌, ◌≤◌, ◌<◌, String, ◌≡◌, ◌⊎◌, inl, inr, refl, ap, ◌∙◌, Bool, true, false,
  Option, none, some, List, [], arith, Bool-cases,
}
use native.Mathlib.Decide.{ℕ_discrete}
use lit_trace.Retry.{
  RetryConfig, RetryTrace, new_trace, Outcome, returned, raised, assertion_error, Reply, value,
  exception, Run, retryable, attempt_loop, run_wrapped,
}

pub Reply-cases :
    {X A : Type 0} (r : Reply X A) → ((a : A) × (r ≡ value a)) ⊎ ((x : X) × (r ≡ exception x))
Reply-cases (value a) = inl (a, refl)
Reply-cases (exception x) = inr (x, refl)

module _ {X A T : Type 0} (config : RetryConfig T) (uniform : ℕ → ℕ) (is_instance : X → T → Bool)
    (text : X → String) (func : ℕ → Reply X A) where
  -- The call of that number raised an exception that is retried.
  abbrev pub Retried : ℕ → Type 0
  Retried i = (exc : X) × (func i ≡ exception exc) × (retryable config is_instance exc ≡ true)

  -- How a run ended, by its last call.
  abbrev pub Ends : Outcome X A → ℕ → Type 0
  Ends (returned a) calls = func calls ≡ value a
  Ends (raised exc) calls =
      (func calls ≡ exception exc)
      × ((calls ≡ config.max_attempts) ⊎ (retryable config is_instance exc ≡ false))
  Ends assertion_error calls = config.max_attempts ≡ 0

  pub record IsSound (r : Run X A) : Type 0 where
    pub bounded : r.calls ≤ config.max_attempts
    pub retried : (i : ℕ) → 1 ≤ i → i < r.calls → Retried i
    pub ends : Ends r.outcome r.calls

  -- The last exception is that of the call before.
  abbrev Last : ℕ → Option X → Type 0
  Last attempt none = attempt ≡ 1
  Last attempt (some exc) = func (attempt - 1) ≡ exception exc

  extended :
      (attempt : ℕ) (exc : X)
      → func attempt ≡ exception exc
      → retryable config is_instance exc ≡ true
      → ((i : ℕ) → 1 ≤ i → i < attempt → Retried i)
      → (i : ℕ) → 1 ≤ i
      → i < attempt + 1
      → Retried i
  extended attempt exc v again k i a b = elim (ℕ_discrete i attempt) [
    | yes here ↦ rw here (exc, v, again)
    | no other ↦ k i a (omega arith)
  ]

  loop-IsSound :
      (left attempt : ℕ) (trace : RetryTrace) (sleeps : List ℕ) (last : Option X)
      → 1 ≤ attempt
      → attempt + left ≡ config.max_attempts + 1
      → ((i : ℕ) → 1 ≤ i → i < attempt → Retried i)
      → Last attempt last
      → IsSound (attempt_loop config uniform is_instance text func left attempt trace sleeps last)
  unfolding attempt_loop
  loop-IsSound zero attempt trace sleeps none n e k l = record {
    bounded = omega arith;
    retried = λ i a b. k i a (omega arith);
    ends = omega arith;
  }
  loop-IsSound zero attempt trace sleeps (some exc) n e k l = record {
    bounded = omega arith;
    retried = λ i a b. k i a (omega arith);
    ends = (l, inl (omega arith));
  }
  loop-IsSound (suc left) attempt trace sleeps last n e k l = elim (Reply-cases (func attempt)) [
    | inl (a, v) ↦ rw (v, attempt_loop) (record { bounded = omega arith; retried = k; ends = v })
    | inr (exc, v) ↦ elim (Bool-cases (retryable config is_instance exc)) [
      | inr final ↦
          rw (v, final, attempt_loop)
            (record { bounded = omega arith; retried = k; ends = (v, inr final) })
      | inl again ↦
          rw (v, again, attempt_loop)
            (loop-IsSound left (attempt + 1) _ _ (some exc) (omega arith) (omega arith)
              (extended attempt exc v again k)
              (let same : attempt + 1 - 1 ≡ attempt = omega arith in ap func same ∙ v))
    ]
  ]

  -- For every configuration and every behaviour of the wrapped function, the wrapper calls it at most
  -- max_attempts times; every call before the last raised an exception that is retried; and the wrapper
  -- returns what the last call returned, or raises what the last call raised, which is then the
  -- max_attempts-th or raised an exception that is not retried. Its assertion fails only for max_attempts 0.
  pub run_wrapped-IsSound :
      (op_name : String) → IsSound (run_wrapped config uniform is_instance text func op_name)
  unfolding run_wrapped
  run_wrapped-IsSound op_name =
      loop-IsSound config.max_attempts 1 (new_trace op_name) [] none (omega arith) (omega arith)
        (λ i a b. absurd (omega arith)) refl
