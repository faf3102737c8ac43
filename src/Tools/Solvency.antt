-- ===== src/Tools/Solvency.antt =====
-- What a sequence of calls takes from the budgets of a ledger.
use lit_trace.Base.{
  is_empty, ℕ, ◌+◌, String, ◌≡◌, refl, Bool, true, false, Option, none, some, List, [], ◌∷◌, arith,
  if◌then◌else◌, Option-cases, Bool-cases, inl, inr,
}
use lit_trace.Base.All.{All}
use lit_trace.Json.{dict, bool, str, Fields, get, get_in, set, empty}
use lit_trace.Json.Dicts.{get-set_self}
use lit_trace.Tools.{ToolContract}
use lit_trace.Tools.Values.{Value}
use lit_trace.Tools.Budget.{Budget, left, budget_of, short_of, charge_all}
use lit_trace.Tools.Call.{
  Arguments, Outcome, returned, raised, ToolExecutionLedger, ToolResult, Begun, answered, ready,
  begin_call, can_reuse_result, begin_filled, begin_funded, budget_violation, reusable, key_of,
  fill, fill_opt, failed_tool_result, policy_violation, with_execution_metadata,
}
use lit_trace.Tools.Run.{
  keep, charge_budget, finish_call, resume, run_sync_tool, successful_tool_result,
}
use lit_trace.Tools.Charge.{AreDistinct, amount, number, charge_all-Covers}

-- What a result reports as charged under a name.
abbrev pub spent : String → ToolResult → ℕ
spent k r = if r.ok then number (get_in k (get "budget_charged" r.metadata)) else 0

charged-with_execution_metadata :
    (c : ToolContract) (charged : Fields) (reused : Bool) (r : ToolResult)
    → get "budget_charged" (with_execution_metadata c charged reused r).metadata
      ≡ some (dict charged)
unfolding with_execution_metadata
charged-with_execution_metadata c charged reused r = get-set_self "budget_charged" (dict charged) (
    set "idempotency_reused" (bool reused)
      (set "idempotent" (bool c.idempotent) (set "cache_policy" (str c.cache_policy) r.metadata)))

spent-with_execution_metadata :
    (k : String) (c : ToolContract) (charged : Fields) (reused : Bool) (r : ToolResult)
    → r.ok ≡ true
    → spent k (with_execution_metadata c charged reused r) ≡ amount k charged
unfolding with_execution_metadata
spent-with_execution_metadata k c charged reused r h =
    rw (h, charged-with_execution_metadata c charged reused r) refl

has_budget :
    (k : String) (b : Budget) (bs : List (String × Budget))
    → budget_of k bs ≡ some b
    → is_empty bs ≡ false
has_budget k b [] h = cc
has_budget k b (d ∷ bs) h = refl

-- The ledger holds a budget, with a number of units left.
abbrev pub Holds : String → ℕ → Option ToolExecutionLedger → Type 0
Holds k n none = ⊥
Holds k n (some l) = budget_of k l.remaining_budget ≡ some (left n)

abbrev IsFunded : Arguments → String → ℕ → Begun → Type 0
IsFunded a k n (answered r l) = Holds k n l × (spent k r ≡ 0)
IsFunded a k n (ready l) = Holds k n l × (budget_violation a.contract l ≡ none)

module _ (a : Arguments) (k : String) (n : ℕ) where
  reused_free : (r : ToolResult) → spent k (with_execution_metadata a.contract empty true r) ≡ 0
  reused_free r = let e = charged-with_execution_metadata a.contract empty true r in ground arith

  begin_funded-IsFunded :
      (l : Option ToolExecutionLedger) → Holds k n l → IsFunded a k n (begin_funded a l)
  unfolding begin_funded failed_tool_result
  begin_funded-IsFunded l h = elim (Option-cases (budget_violation a.contract l)) [
    | inl e ↦ rw (begin_funded, e) (h, e)
    | inr (v, e) ↦ rw (begin_funded, e) (h, refl)
  ]

  begin_filled-IsFunded :
      (l : Option ToolExecutionLedger) → Holds k n l → IsFunded a k n (begin_filled a l)
  unfolding begin_filled
  begin_filled-IsFunded l h = elim (Option-cases (reusable a.contract (key_of a) l)) [
    | inl e ↦ rw (begin_filled, e) (begin_funded-IsFunded l h)
    | inr (r, e) ↦ rw (begin_filled, e) (h, reused_free r)
  ]

  fill-Holds : (l : Option ToolExecutionLedger) → Holds k n l → Holds k n (fill_opt a.policy l)
  unfolding fill
  fill-Holds none h = h
  fill-Holds (some l) h = rw (has_budget k (left n) l.remaining_budget h) h

  begin_call-IsFunded :
      (l : Option ToolExecutionLedger) → Holds k n l → IsFunded a k n (begin_call a l)
  unfolding begin_call failed_tool_result
  begin_call-IsFunded l h = elim (Option-cases (policy_violation a.policy a.contract)) [
    | inl e ↦ rw (begin_call, e) (begin_filled-IsFunded _ (fill-Holds l h))
    | inr (v, e) ↦ rw (begin_call, e) (h, refl)
  ]

  keep-Holds :
      (m : ℕ) (key : Option String) (r : ToolResult) (l : Option ToolExecutionLedger)
      → Holds k m l
      → Holds k m (keep a.contract key r l)
  unfolding keep
  keep-Holds m none r l h = h
  keep-Holds m (some key) r none h = h
  keep-Holds m (some key) r (some l) h = elim (Bool-cases (can_reuse_result a.contract)) [
    | inl e ↦ rw e h
    | inr e ↦ rw e h
  ]

short_of-none :
    (c : ToolContract) (l : ToolExecutionLedger)
    → budget_violation c (some l) ≡ none
    → short_of c.budget_cost l.remaining_budget ≡ none
unfolding budget_violation
short_of-none c l h = ground arith

-- After a call, the units that are left under a name and those that its result reports add up to `n`.
abbrev pub Balances : String → ℕ → ToolResult → Option ToolExecutionLedger → Type 0
Balances k n r l = (m : ℕ) × Holds k m l × (m + spent k r ≡ n)

module _ (to_str : Value → String) (bytes : Value → ℕ) (a : Arguments) (k : String) (n : ℕ)
    (distinct : AreDistinct a.contract.budget_cost) where
  told :
      (v : Value) (charged : Fields)
      → spent k (
          with_execution_metadata a.contract charged false
            (successful_tool_result to_str bytes a v))
        ≡ amount k charged
  unfolding successful_tool_result
  told v charged = spent-with_execution_metadata k a.contract charged false _ refl

  finish_call-Balances :
      (o : Outcome) (l : Option ToolExecutionLedger)
      → IsFunded a k n (ready l)
      → Balances k n (finish_call to_str bytes a o l).0 (finish_call to_str bytes a o l).1
  unfolding finish_call charge_budget failed_tool_result
  finish_call-Balances o none h = absurd h.0
  finish_call-Balances (raised class message) (some l) h = (n, h.0, omega arith)
  finish_call-Balances (returned v) (some l) h =
      let (m, kept, adds) =
        charge_all-Covers k n a.contract.budget_cost l.remaining_budget distinct
          (short_of-none a.contract l h.1) h.0 in
      (
        m,
        keep-Holds a k n m (key_of a) _ _ kept,
        omega (arith, adds, told v (charge_all a.contract.budget_cost l.remaining_budget).1),
      )

  resume-Balances {ℓ} :
      {W : Type ℓ} (func : W → Outcome × W) (w : W) (b : Begun)
      → IsFunded a k n b
      → Balances k n (resume to_str bytes func a w b).0 (resume to_str bytes func a w b).1
  resume-Balances func w (answered r l) h = (n, h.0, omega (arith, h.1))
  resume-Balances func w (ready l) h = finish_call-Balances (func w).0 l h

  run-Balances {ℓ} :
      {W : Type ℓ} (func : W → Outcome × W) (l : Option ToolExecutionLedger) (w : W)
      → Holds k n l
      → Balances k n
          (run_sync_tool to_str bytes func a l w).0
          (run_sync_tool to_str bytes func a l w).1
  unfolding run_sync_tool
  run-Balances func l w h = resume-Balances func w (begin_call a l) (begin_call-IsFunded a k n l h)

-- A sequence of calls, each with its tool.
abbrev pub Request {ℓ} : Type ℓ → Type ℓ
Request W = (W → Outcome × W) × Arguments

abbrev pub total_spent : String → List ToolResult → ℕ
total_spent k [] = 0
total_spent k (r ∷ rs) = spent k r + total_spent k rs

module _ {ℓ} {W : Type ℓ} (to_str : Value → String) (bytes : Value → ℕ) where
  unfoldable pub run_all :
      List (Request W)
      → Option ToolExecutionLedger
      → W
      → List ToolResult × Option ToolExecutionLedger
  unfolding run_sync_tool
  run_all [] l w = ([], l)
  run_all (q ∷ qs) l w =
      let one = run_sync_tool to_str bytes q.0 q.1 l w in
      let rest = run_all qs one.1 one.2 in (one.0 ∷ rest.0, rest.1)

  -- Whatever tools are called, one after another, with costs under distinct names: of a budget of `n`
  -- units the ledger has at the end exactly what the results of the calls do not report as charged, so
  -- that the budget is never exceeded.
  pub run_all-Balances :
      (k : String) (n : ℕ) (qs : List (Request W)) (l : Option ToolExecutionLedger) (w : W)
      → All (λ q. AreDistinct q.1.contract.budget_cost) qs
      → Holds k n l
      → (m : ℕ) × Holds k m (run_all qs l w).1 × (m + total_spent k (run_all qs l w).0 ≡ n)
  unfolding run_all
  run_all-Balances k n [] l w d h = (n, h, omega arith)
  run_all-Balances k n (q ∷ qs) l w d h =
      let one = run_sync_tool to_str bytes q.0 q.1 l w in
      let (m, held, adds) = run-Balances to_str bytes q.1 k n d.0 q.0 l w h in
      let (last, kept, sums) = run_all-Balances k m qs one.1 one.2 d.1 held in
      (last, kept, omega (arith, adds, sums))
