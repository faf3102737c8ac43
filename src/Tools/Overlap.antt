-- ===== src/Tools/Overlap.antt =====
-- Two calls of `run_tool` in one task, of which the second begins while the tool of the first is awaited.
use lit_trace.Base.{
  ℕ, ◌-◌, ◌*◌, ◌≤◌, ◌<◌, String, ◌≡◌, refl, ap, true, Option, none, some, List, [], ◌∷◌, arith,
  eq_refl,
}
use lit_trace.Tools.Values.{Value}
use lit_trace.Tools.Budget.{Budget, left, over, short_of, minus, charge_all, charge_one}
use lit_trace.Tools.Call.{
  with_execution_metadata, Arguments, ToolResult, policy_violation, returned, ToolExecutionLedger,
  ready, begin_call, begin_filled, begin_funded, budget_violation, reusable, key_of, fill,
}
use lit_trace.Tools.Run.{successful_tool_result, keep, charge_budget, finish_call}

-- A contract with one cost, on a ledger with that budget.
module _ (a : Arguments) (k : String) (c n : ℕ) (costs : a.contract.budget_cost ≡ (k, c) ∷ []) where
  one-covered : c ≤ n → short_of a.contract.budget_cost ((k, left n) ∷ []) ≡ none
  unfolding short_of
  one-covered enough = rw (costs, eq_refl k) (ground arith)

  one-charged :
      (b : Budget) → (charge_all a.contract.budget_cost ((k, b) ∷ [])).0 ≡ (k, minus b c) ∷ []
  unfolding charge_all charge_one
  one-charged b = rw (costs, eq_refl k) (rw (eq_refl k) refl)

minus_twice : (n c : ℕ) → c ≤ n → n < 2 * c → minus (minus (left n) c) c ≡ over (2 * c - n - 1)
minus_twice n c h k = ground arith

finish_call_ok :
    (to_str : Value → String) (bytes : Value → ℕ) (a : Arguments) (v : Value)
    (l : Option ToolExecutionLedger)
    → (finish_call to_str bytes a (returned v) l).0.ok ≡ true
unfolding finish_call with_execution_metadata successful_tool_result
finish_call_ok to_str bytes a v l = refl

-- A ledger with one budget.
abbrev pub ledger_with : String → Budget → List (String × ToolResult) → ToolExecutionLedger
ledger_with k b rs = record { remaining_budget = (k, b) ∷ []; cached_results = rs }

module _ (a : Arguments) (k : String) (c : ℕ) (rs : List (String × ToolResult))
    (no_policy : a.policy ≡ none) (no_key : key_of a ≡ none)
    (costs : a.contract.budget_cost ≡ (k, c) ∷ []) where
  begin_funded-ready :
      (n : ℕ)
      → c ≤ n
      → begin_funded a (some (ledger_with k (left n) rs)) ≡ ready (some (ledger_with k (left n) rs))
  unfolding begin_funded budget_violation
  begin_funded-ready n enough =
      rw (begin_funded, budget_violation, one-covered a k c n costs enough) refl

  begin_call-ready :
      (n : ℕ)
      → c ≤ n
      → begin_call a (some (ledger_with k (left n) rs)) ≡ ready (some (ledger_with k (left n) rs))
  unfolding begin_call begin_filled reusable fill
  begin_call-ready n enough =
      let none_kept : reusable a.contract (key_of a) (some (ledger_with k (left n) rs)) ≡ none =
        rw no_key refl in
      let allowed : policy_violation a.policy a.contract ≡ none = rw no_policy refl in
      rw (begin_call, allowed) (rw (begin_filled, none_kept) (begin_funded-ready n enough))

  finish_call-charged :
      (to_str : Value → String) (bytes : Value → ℕ) (v : Value) (b : Budget)
      → (finish_call to_str bytes a (returned v) (some (ledger_with k b rs))).1
        ≡ some (ledger_with k (minus b c) rs)
  unfolding finish_call charge_budget keep
  finish_call-charged to_str bytes v b = rw (no_key, one-charged a k c 0 costs b) refl

  -- Two awaited calls with the same arguments, without a policy and without an idempotency key, of a
  -- contract with exactly one cost `c`, on a ledger with exactly that one budget, of which `n` units are
  -- left with `c ≤ n < 2 * c`, each returning a value: if the second one begins on the ledger as it was before
  -- the first one was charged, both pass the test of the budget, both succeed, and the budget is overspent
  -- by `2 * c - n`.
  pub overlap-overspends :
      (to_str : Value → String) (bytes : Value → ℕ) (v v' : Value) (n : ℕ)
      → c ≤ n
      → n < 2 * c
      → let l = some (ledger_with k (left n) rs) in
        let first = finish_call to_str bytes a (returned v) l in
        let second = finish_call to_str bytes a (returned v') first.1 in
        (begin_call a l ≡ ready l)
        × (first.0.ok ≡ true)
        × (second.0.ok ≡ true)
        × (second.1 ≡ some (ledger_with k (over (2 * c - n - 1)) rs))
  overlap-overspends to_str bytes v v' n enough small = (
    begin_call-ready n enough,
    finish_call_ok to_str bytes a v _,
    finish_call_ok to_str bytes a v' _,
    rw (finish_call-charged to_str bytes v (left n)) (
        rw (finish_call-charged to_str bytes v' (minus (left n) c))
          (ap (λ b. some (ledger_with k b rs)) (minus_twice n c enough small))),
  )
