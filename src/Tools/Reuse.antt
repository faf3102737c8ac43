-- ===== src/Tools/Reuse.antt =====
-- A call that is answered with a kept result.
use lit_trace.Base.{
  ℕ, String, ◌≡◌, ◌∙◌, ap, refl, true, false, Option, none, some, List, [], ◌∷◌, arith, eq_refl,
  Option-cases, inl, inr,
}
use lit_trace.Json.{empty}
use lit_trace.Tools.{ToolContract, ToolExecutionPolicy}
use lit_trace.Tools.Values.{Value}
use lit_trace.Tools.Call.{
  Arguments, Outcome, returned, raised, ToolExecutionLedger, ToolResult, Begun, answered, ready,
  begin_call, begin_filled, begin_funded, budget_violation, reusable, can_reuse_result, key_of,
  fill, fill_opt, failed_tool_result, policy_violation, with_execution_metadata, cached, put_cached,
}
use lit_trace.Tools.Solvency.{Request, run_all}
use lit_trace.Tools.Kept.{Keeps, run_all-Keeps}
use lit_trace.Tools.Run.{keep, charge_budget, finish_call, resume, run_sync_tool}

cached-put_cached :
    (k : String) (r : ToolResult) (rs : List (String × ToolResult))
    → cached k (put_cached k r rs) ≡ some r
cached-put_cached k r [] = ground (arith, eq_refl k)
cached-put_cached k r (s ∷ rs) = ground (arith, eq_refl k, cached-put_cached k r rs)

-- A call that no kept result answers, and that has a ledger.
abbrev IsFresh : Begun → Type 0
IsFresh (answered r l) = r.ok ≡ false
IsFresh (ready none) = ⊥
IsFresh (ready (some l)) = Unit

module _ (a : Arguments) where
  begin_funded-IsFresh : (l : ToolExecutionLedger) → IsFresh (begin_funded a (some l))
  unfolding begin_funded failed_tool_result
  begin_funded-IsFresh l = elim (Option-cases (budget_violation a.contract (some l))) [
    | inl e ↦ rw (begin_funded, e) tt
    | inr (v, e) ↦ rw (begin_funded, e) refl
  ]

  begin_filled-IsFresh :
      (l : ToolExecutionLedger)
      → reusable a.contract (key_of a) (some l) ≡ none
      → IsFresh (begin_filled a (some l))
  unfolding begin_filled
  begin_filled-IsFresh l e = rw (begin_filled, e) (begin_funded-IsFresh l)

  begin_call-IsFresh :
      (l : ToolExecutionLedger)
      → reusable a.contract (key_of a) (some (fill a.policy l)) ≡ none
      → IsFresh (begin_call a (some l))
  unfolding begin_call failed_tool_result
  begin_call-IsFresh l h = elim (Option-cases (policy_violation a.policy a.contract)) [
    | inl e ↦ rw (begin_call, e) (begin_filled-IsFresh _ h)
    | inr (v, e) ↦ rw (begin_call, e) refl
  ]

-- The ledger keeps the result under the key.
abbrev KeepsResult : String → ToolResult → Option ToolExecutionLedger → Type 0
KeepsResult k r l =
    (l' : ToolExecutionLedger) × (l ≡ some l') × (cached k l'.cached_results ≡ some r)

keep-KeepsResult :
    (c : ToolContract) (k : String) (key : Option String) (r : ToolResult) (l : ToolExecutionLedger)
    → can_reuse_result c ≡ true
    → key ≡ some k
    → KeepsResult k r (keep c key r (some l))
unfolding keep
keep-KeepsResult c k key r l can e = (
  record l { cached_results = put_cached k r l.cached_results },
  rw e (rw can refl),
  cached-put_cached k r l.cached_results,
)

module _ {ℓ} {W : Type ℓ} (to_str : Value → String) (bytes : Value → ℕ) (func : W → Outcome × W)
    (a : Arguments) (k : String) (can : can_reuse_result a.contract ≡ true)
    (e : key_of a ≡ some k) where
  finish_call-KeepsResult :
      (o : Outcome) (l : ToolExecutionLedger)
      → (finish_call to_str bytes a o (some l)).0.ok ≡ true
      → KeepsResult k
          (finish_call to_str bytes a o (some l)).0
          (finish_call to_str bytes a o (some l)).1
  unfolding finish_call charge_budget failed_tool_result
  finish_call-KeepsResult (raised class message) l h = cc
  finish_call-KeepsResult (returned v) l h = keep-KeepsResult a.contract k (key_of a) _ _ can e

  resume-KeepsResult :
      (b : Begun) (w : W)
      → IsFresh b
      → (resume to_str bytes func a w b).0.ok ≡ true
      → KeepsResult k (resume to_str bytes func a w b).0 (resume to_str bytes func a w b).1
  resume-KeepsResult (answered r l) w f h = cc
  resume-KeepsResult (ready none) w f h = absurd f
  resume-KeepsResult (ready (some l)) w f h = finish_call-KeepsResult (func w).0 l h

fill_results :
    (p : Option ToolExecutionPolicy) (l : ToolExecutionLedger)
    → (fill p l).cached_results ≡ l.cached_results
unfolding fill
fill_results p l = ground arith

module _ (a : Arguments) (k : String) (can : can_reuse_result a.contract ≡ true)
    (e : key_of a ≡ some k) (l : ToolExecutionLedger) where
  reusable-fill :
      (o : Option ToolResult)
      → cached k l.cached_results ≡ o
      → reusable a.contract (key_of a) (some (fill a.policy l)) ≡ o
  unfolding reusable
  reusable-fill o h = rw (e, can) (ap (cached k) (fill_results a.policy l) ∙ h)

  begin_call-reused :
      (r : ToolResult)
      → policy_violation a.policy a.contract ≡ none
      → cached k l.cached_results ≡ some r
      → begin_call a (some l)
        ≡ answered (with_execution_metadata a.contract empty true r) (some (fill a.policy l))
  unfolding begin_call begin_filled
  begin_call-reused r p h = rw (begin_call, p) (rw (begin_filled, reusable-fill (some r) h) refl)

run-reused :
    {W : Type 0} (to_str : Value → String) (bytes : Value → ℕ) (func : W → Outcome × W)
    (a : Arguments) (k : String) (r : ToolResult) (l : Option ToolExecutionLedger) (w : W)
    → can_reuse_result a.contract ≡ true
    → key_of a ≡ some k
    → policy_violation a.policy a.contract ≡ none
    → Keeps k r l
    → run_sync_tool to_str bytes func a l w
      ≡ (with_execution_metadata a.contract empty true r, fill_opt a.policy l, w)
unfolding run_sync_tool
run-reused to_str bytes func a k r none w can e allowed has = absurd has
run-reused to_str bytes func a k r (some l) w can e allowed has =
    rw (begin_call-reused a k can e l r allowed has) refl

-- The result of a call of a read-only, idempotent tool that succeeds under a key which had no result yet
-- answers the later calls of the same contract under that key that their policy allows, after any
-- number of other calls, of any tools, on that ledger, each begun when the one before it is done: the
-- result is the same but for the record of its execution, which says that it was reused and that nothing
-- was charged; the tool, whatever it is and whatever it is given, is not run again, and the world stays.
pub run_sync_tool-reused :
    {W : Type 0} (to_str : Value → String) (bytes : Value → ℕ) (func func' : W → Outcome × W)
    (a a' : Arguments) (k : String) (l : ToolExecutionLedger) (w w₁ w' : W) (qs : List (Request W))
    → can_reuse_result a.contract ≡ true
    → key_of a ≡ some k
    → cached k l.cached_results ≡ none
    → (run_sync_tool to_str bytes func a (some l) w).0.ok ≡ true
    → a'.contract ≡ a.contract
    → key_of a' ≡ some k
    → policy_violation a'.policy a'.contract ≡ none
    → let first = run_sync_tool to_str bytes func a (some l) w in
      let after = (run_all to_str bytes qs first.1 w₁).1 in
      run_sync_tool to_str bytes func' a' after w'
      ≡ (with_execution_metadata a.contract empty true first.0, fill_opt a'.policy after, w')
unfolding run_sync_tool
run_sync_tool-reused to_str bytes func func' a a' k l w w₁ w' qs can e new ok same e' allowed =
    let first = run_sync_tool to_str bytes func a (some l) w in
    let (l₁, kept, has) =
      resume-KeepsResult to_str bytes func a k can e (begin_call a (some l)) w
        (begin_call-IsFresh a l (reusable-fill a k can e l none new)) ok in
    let still : Keeps k first.0 (run_all to_str bytes qs first.1 w₁).1 =
      run_all-Keeps k first.0 to_str bytes qs first.1 w₁ (rw kept has) in
    run-reused to_str bytes func' a' k first.0 (run_all to_str bytes qs first.1 w₁).1 w'
      (rw same can) e' allowed still
    ∙ rw same refl
