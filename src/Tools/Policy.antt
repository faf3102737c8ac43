-- ===== src/Tools/Policy.antt =====
-- Which contracts a policy allows, and a call of a tool that it does not allow.
use lit_trace.Base.Unique.{is_in}
use lit_trace.Base.{
  is_empty, ℕ, String, ◌≡◌, ◌↔◌, ap, inl, inr, refl, Bool, true, false, not, Option, none, some,
  List, [], ◌∷◌, ◌==◌, arith, Bool-cases, Option-cases, ==→≡,
}
use lit_trace.Base.{eq_refl}
use lit_trace.Base.Words.{lower-append, has_text, lower}
use lit_trace.Base.Table.{select}
use lit_trace.Tools.{
  ToolContract, ToolExecutionPolicy, policy_blocked, class_of, failure_class, forbidden,
  violation_for,
}
use lit_trace.Tools.Values.{Value}
use lit_trace.Tools.Call.{
  Arguments, Outcome, ToolExecutionLedger, ToolResult, answered, begin_call, policy_violation,
  failed_tool_result, violation_error,
}
use lit_trace.Tools.Run.{run_sync_tool}

-- What a policy asks of a contract.
pub record IsAllowed (p : ToolExecutionPolicy) (c : ToolContract) : Type 0 where
  pub listed : is_empty p.allowed_tools ≡ false → is_in c.name p.allowed_tools ≡ true
  pub in_react : p.react_only ≡ true → c.allow_in_react ≡ true
  pub on_network : c.requires_network ≡ true → p.allow_network ≡ true
  pub may_mutate : c.mutates_workspace ≡ true → p.allow_workspace_mutation ≡ true
  pub effects : (e : String) → is_in e c.side_effects ≡ true → is_in e p.allow_side_effects ≡ true

-- Every element passes a test if none is selected by its negation.
is_in-select :
    (q : String → Bool) (xs : List String) (e : String)
    → is_empty (select (λ x. not (q x)) xs) ≡ true
    → is_in e xs ≡ true
    → q e ≡ true
unfolding select
is_in-select q [] e h m = cc
is_in-select q (x ∷ xs) e h m = elim (Bool-cases (x == e)) [
  | inl same ↦ rw (← ==→≡ x e same) (ground arith)
  | inr other ↦ ground (arith, is_in-select q xs e)
]

select-is_empty :
    (q : String → Bool) (xs : List String)
    → ((e : String) → is_in e xs ≡ true → q e ≡ true)
    → is_empty (select (λ x. not (q x)) xs) ≡ true
unfolding select
select-is_empty q [] h = refl
select-is_empty q (x ∷ xs) h =
    ground (arith, h x, eq_refl x, select-is_empty q xs (λ e m. h e (rw m (ground arith))))

module _ (p : ToolExecutionPolicy) (c : ToolContract) where
  violation_for-IsAllowed : violation_for p c ≡ none → IsAllowed p c
  unfolding violation_for forbidden
  violation_for-IsAllowed h = record {
    listed = ground arith;
    in_react = ground arith;
    on_network = ground arith;
    may_mutate = ground arith;
    effects =
        λ e m. is_in-select (λ x. is_in x p.allow_side_effects) c.side_effects e (ground arith) m;
  }

  IsAllowed-violation_for : IsAllowed p c → violation_for p c ≡ none
  unfolding violation_for forbidden
  IsAllowed-violation_for a = ground (
    arith,
    a.listed,
    a.in_react,
    a.on_network,
    a.may_mutate,
    select-is_empty (λ x. is_in x p.allow_side_effects) c.side_effects a.effects,
  )

  -- A policy has no complaint about a contract exactly if it lists the tool or no tool at all, and allows
  -- its use in the loop, its network access, its mutations and every one of its side effects, wherever
  -- the contract has them.
  pub violation_for-IsAllowed_iff : (violation_for p c ≡ none) ↔ IsAllowed p c
  violation_for-IsAllowed_iff = (violation_for-IsAllowed, IsAllowed-violation_for)

violation_class : (v : String) → failure_class (violation_error v) ≡ policy_blocked
unfolding failure_class class_of has_text lower
violation_class v = rw (lower-append "ToolPolicyViolation: " v) refl

begin-blocked :
    (a : Arguments) (l : Option ToolExecutionLedger) (v : String)
    → policy_violation a.policy a.contract ≡ some v
    → begin_call a l ≡ answered (failed_tool_result a (violation_error v)) l
unfolding begin_call
begin-blocked a l v h = rw (begin_call, h)

policy_violation-some :
    (o : Option ToolExecutionPolicy) (p : ToolExecutionPolicy) (c : ToolContract) (v : String)
    → o ≡ some p
    → violation_for p c ≡ some v
    → policy_violation o c ≡ some v
policy_violation-some o p c v e h = rw e h

-- A call of a tool that its policy does not allow answers with a failure of the class policy_blocked;
-- the tool is not run, so that its world stays, and the ledger stays as well.
pub run_sync_tool-blocked :
    (to_str : Value → String) (bytes : Value → ℕ) {W : Type 0} (func : W → Outcome × W)
    (a : Arguments) (p : ToolExecutionPolicy) (l : Option ToolExecutionLedger) (w : W)
    → a.policy ≡ some p
    → ¬ IsAllowed p a.contract
    → (r : ToolResult) × (run_sync_tool to_str bytes func a l w ≡ (r, l, w))
      × (r.ok ≡ false)
      × (r.failure_class ≡ some policy_blocked)
unfolding run_sync_tool failed_tool_result
run_sync_tool-blocked to_str bytes func a p l w e n =
    elim (Option-cases (violation_for p a.contract)) [
      | inl o ↦ absurd (n ((violation_for-IsAllowed_iff p a.contract).0 o))
      | inr (v, o) ↦ (
        failed_tool_result a (violation_error v),
        rw (run_sync_tool, begin-blocked a l v (policy_violation-some _ p _ v e o)),
        refl,
        ap some (violation_class v),
      )
    ]
