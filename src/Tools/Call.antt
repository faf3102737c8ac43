-- ===== src/Tools/Call.antt =====
-- tool_contracts.py `run_sync_tool` and `run_tool`: a call of a tool up to the run of the tool, under its
-- policy, the budgets of the ledger and the results that it keeps. The tool acts on a world of its own.
use Prim.Native.String
use lit_trace.Base.{
  is_empty, ℕ, String, Bool, true, false, not, Option, none, some, List, [], ◌∷◌, ◌&&◌, ◌==◌,
  if◌then◌else◌, join, map,
}
use lit_trace.Json.{Json, str, bool, dict, Fields, end, field, get, set, empty}
use lit_trace.Tools.{
  ToolContract, ToolExecutionPolicy, FailureClass, contract_id, violation_for, failure_class,
}
use lit_trace.Tools.Values.{Value}
use lit_trace.Tools.Budget.{Budget, left, short_of}

pub record ToolArtifactRef : Type 0 where
  pub artifact_id : String
  pub kind : String
  pub producer : String
  pub summary : Fields

pub record ToolResult : Type 0 where
  pub tool : String
  pub contract_id : String
  pub ok : Bool
  pub output : Option Value
  pub output_ref : Option ToolArtifactRef
  pub output_bytes_estimate : ℕ
  pub output_redacted : Bool
  pub error : Option String
  pub failure_class : Option FailureClass
  pub warnings : List String
  pub started_at : ℕ
  pub elapsed_ms : ℕ
  pub output_summary : Fields
  pub metadata : Fields

pub record ToolExecutionLedger : Type 0 where
  pub remaining_budget : List (String × Budget)
  pub cached_results : List (String × ToolResult)

abbrev pub cached : String → List (String × ToolResult) → Option ToolResult
cached k [] = none
cached k (r ∷ rs) = if r.0 == k then some r.1 else cached k rs

abbrev pub put_cached :
    String → ToolResult → List (String × ToolResult) → List (String × ToolResult)
put_cached k v [] = (k, v) ∷ []
put_cached k v (r ∷ rs) = if r.0 == k then (k, v) ∷ rs else r ∷ put_cached k v rs

pub data OutputMode : Type 0 where
  inline summary_only : OutputMode

abbrev pub is_summary : OutputMode → Bool
is_summary summary_only = true
is_summary inline = false

-- The arguments of a call but the tool and its payload; of the context only the metadata is read. The
-- times are readings of the clocks.
pub record Arguments : Type 0 where
  pub contract : ToolContract
  pub context : Option Fields
  pub policy : Option ToolExecutionPolicy
  pub metadata : Fields
  pub output_mode : OutputMode
  pub output_ref : Option ToolArtifactRef
  pub idempotency_key : Option String
  pub started_at : ℕ
  pub elapsed_ms : ℕ

-- `{**a, **b}`
abbrev pub merge : Fields → Fields → Fields
merge a end = a
merge a (field k v b) = merge (set k v a) b

abbrev pub or_empty : Option Fields → Fields
or_empty none = empty
or_empty (some fs) = fs

abbrev pub call_metadata : Arguments → Fields
call_metadata a = merge (or_empty a.context) a.metadata

abbrev pub policy_violation : Option ToolExecutionPolicy → ToolContract → Option String
policy_violation none c = none
policy_violation (some p) c = violation_for p c

unfoldable pub failed_tool_result : Arguments → String → ToolResult
failed_tool_result a error = record {
  tool = a.contract.name;
  contract_id = contract_id a.contract;
  ok = false;
  output = none;
  output_ref = none;
  output_bytes_estimate = 0;
  output_redacted = false;
  error = some error;
  failure_class = some (failure_class error);
  warnings = [];
  started_at = a.started_at;
  elapsed_ms = a.elapsed_ms;
  output_summary = empty;
  metadata = call_metadata a;
}

-- `f"{contract_id}:{key}"`
abbrev pub key_text : ToolContract → String → String
key_text c k = join (contract_id c ∷ ":" ∷ k ∷ [])

abbrev pub context_key : ToolContract → Option Json → Option String
context_key c (some (str k)) = some (key_text c k)
context_key c _ = none

-- `explicit_key` counts unless it is none or empty.
unfoldable pub execution_key : ToolContract → Option Fields → Option String → Option String
execution_key c context none = context_key c (get "idempotency_key" (or_empty context))
execution_key c context (some k) =
    if k == ""
    then context_key c (get "idempotency_key" (or_empty context))
    else some (key_text c k)

abbrev pub can_reuse_result : ToolContract → Bool
can_reuse_result c = c.idempotent && not c.mutates_workspace

unfoldable pub with_execution_metadata : ToolContract → Fields → Bool → ToolResult → ToolResult
with_execution_metadata c charged reused r = record r {
  metadata = set "budget_charged" (dict charged) (
      set "idempotency_reused" (bool reused) (
        set "idempotent" (bool c.idempotent) (set "cache_policy" (str c.cache_policy) r.metadata)));
}

pub data Outcome : Type 0 where
  returned : Value → Outcome
  raised : (class message : String) → Outcome

-- `ToolPolicyViolation: …`
abbrev pub violation_error : String → String
violation_error v = String.◌++◌ "ToolPolicyViolation: " v

-- A ledger that holds no budget takes those of the policy.
abbrev pub limits_of : Option ToolExecutionPolicy → List (String × Budget)
limits_of none = []
limits_of (some p) = map (λ b. (b.0, left b.1)) p.budget_limits

unfoldable pub fill : Option ToolExecutionPolicy → ToolExecutionLedger → ToolExecutionLedger
fill policy l =
    if is_empty l.remaining_budget then record l { remaining_budget = limits_of policy } else l

abbrev pub fill_opt :
    Option ToolExecutionPolicy → Option ToolExecutionLedger → Option ToolExecutionLedger
fill_opt policy none = none
fill_opt policy (some l) = some (fill policy l)

-- The kept result that answers a call.
unfoldable pub reusable :
    ToolContract → Option String → Option ToolExecutionLedger → Option ToolResult
reusable c (some k) (some l) = if can_reuse_result c then cached k l.cached_results else none
reusable c _ _ = none

unfoldable pub budget_violation : ToolContract → Option ToolExecutionLedger → Option String
budget_violation c none = none
budget_violation c (some l) = elim (short_of c.budget_cost l.remaining_budget) [
  | none ↦ none
  | some name ↦ some (join ("Tool '" ∷ c.name ∷ "' exceeds remaining " ∷ name ∷ " budget." ∷ []))
]

-- A call up to the run of its tool: it is answered without one, or it is to run the tool.
pub data Begun : Type 0 where
  answered : ToolResult → Option ToolExecutionLedger → Begun
  ready : Option ToolExecutionLedger → Begun

abbrev pub key_of : Arguments → Option String
key_of a = execution_key a.contract a.context a.idempotency_key

unfoldable pub begin_funded : Arguments → Option ToolExecutionLedger → Begun
begin_funded a l = elim (budget_violation a.contract l) [
  | some v ↦ answered (failed_tool_result a (violation_error v)) l
  | none ↦ ready l
]

unfoldable pub begin_filled : Arguments → Option ToolExecutionLedger → Begun
begin_filled a l = elim (reusable a.contract (key_of a) l) [
  | some r ↦ answered (with_execution_metadata a.contract empty true r) l
  | none ↦ begin_funded a l
]

unfoldable pub begin_call : Arguments → Option ToolExecutionLedger → Begun
begin_call a l = elim (policy_violation a.policy a.contract) [
  | some v ↦ answered (failed_tool_result a (violation_error v)) l
  | none ↦ begin_filled a (fill_opt a.policy l)
]
