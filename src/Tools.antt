-- ===== src/Tools.antt =====
-- tool_contracts.py: the contracts of tools, the policy that a call must satisfy, and the classes
-- of failures. Costs and budgets, which the source holds as floats, are whole numbers here.
pub mod Values
pub mod Budget
pub mod Call
pub mod Run
pub mod Policy
pub mod Charge
pub mod Kept
pub mod Solvency
pub mod Reuse
pub mod Overlap
pub mod Contracts
pub mod Summary
pub mod Samples
use lit_trace.Base.Unique.{is_in}
use lit_trace.Base.{
  is_empty, ℕ, String, Bool, true, false, not, Option, none, some, List, [], ◌∷◌, ◌&&◌, ◌||◌, ◌==◌,
  if◌then◌else◌, join,
}
use lit_trace.Base.Words.{codes, has_text, lower}
use lit_trace.Base.Table.{select}

pub record ToolContract : Type 0 where
  pub name : String
  pub version : String
  pub category : String
  pub description : String
  pub input_schema : Option String
  pub output_schema : Option String
  pub side_effects : List String
  pub requires_network : Bool
  pub mutates_workspace : Bool
  pub allow_in_react : Bool
  pub idempotent : Bool
  pub cache_policy : String
  pub provenance_outputs : List String
  pub quality_requirements : List String
  pub budget_cost : List (String × ℕ)

-- The property `contract_id`.
abbrev pub contract_id : ToolContract → String
contract_id c = join (c.name ∷ ":" ∷ c.version ∷ [])

pub record ToolExecutionPolicy : Type 0 where
  pub allow_network : Bool
  pub allow_workspace_mutation : Bool
  pub allow_side_effects : List String
  pub allowed_tools : List String
  pub react_only : Bool
  pub budget_limits : List (String × ℕ)

-- `", ".join(xs)`
unfoldable pub comma_join : List String → String
comma_join [] = ""
comma_join (x ∷ xs) = if is_empty xs then x else join (x ∷ ", " ∷ comma_join xs ∷ [])

-- The side effects of a contract that a policy does not list.
unfoldable pub forbidden : ToolExecutionPolicy → ToolContract → List String
forbidden p c = select (λ e. not (is_in e p.allow_side_effects)) c.side_effects

abbrev pub tool_text : String → String → String
tool_text name rest = join ("Tool '" ∷ name ∷ rest ∷ [])

-- The policy's complaint about a contract, from the first test that fails.
unfoldable pub violation_for : ToolExecutionPolicy → ToolContract → Option String
violation_for p c =
    if not (is_empty p.allowed_tools) && not (is_in c.name p.allowed_tools)
    then some (tool_text c.name "' is not in the allowed tool set.")
    else if p.react_only && not c.allow_in_react
    then some (tool_text c.name "' is not allowed in ReAct loops.")
    else if c.requires_network && not p.allow_network
    then some (tool_text c.name "' requires network access, but policy forbids it.")
    else if c.mutates_workspace && not p.allow_workspace_mutation
    then some (tool_text c.name "' mutates workspace, but policy forbids it.")
    else if not (is_empty (forbidden p c))
    then some (
        join (
          "Tool '"
          ∷ c.name
          ∷ "' requires forbidden side effects: "
          ∷ comma_join (forbidden p c)
          ∷ "."
          ∷ []))
    else none

pub data FailureClass : Type 0 where
  policy_blocked transient invalid_input source_unavailable : FailureClass

abbrev pub either : (s t : String) → List ℕ → Bool
either s t l = has_text (codes s) l || has_text (codes t) l

-- `_failure_class` on the lowered error; no letter but the ASCII ones is lowered to one of these words.
unfoldable pub class_of : List ℕ → FailureClass
class_of lowered =
    if either "policy" "forbid" lowered
    then policy_blocked
    else if either "timeout" "connect" lowered || has_text (codes "transport") lowered
    then transient
    else if either "valueerror" "validation" lowered
    then invalid_input
    else source_unavailable

unfoldable pub failure_class : String → FailureClass
failure_class error = class_of (lower error)
