-- ===== src/Tools/Run.antt =====
-- tool_contracts.py `run_sync_tool` and `run_tool`: the end of a call, with the charge of its budgets and
-- the result that is kept, and the whole call.
use lit_trace.Base.{ℕ, String, true, false, Option, none, some, [], ◌∷◌, if◌then◌else◌, join}
use lit_trace.Json.{Fields, end}
use lit_trace.Tools.{ToolContract, contract_id}
use lit_trace.Tools.Values.{Value, extract_warnings, summarize_output}
use lit_trace.Tools.Budget.{charge_all}
use lit_trace.Tools.Call.{
  Arguments, Begun, Outcome, ToolExecutionLedger, ToolResult, answered, begin_call, call_metadata,
  can_reuse_result, failed_tool_result, is_summary, key_of, put_cached, raised, ready, returned,
  with_execution_metadata,
}

unfoldable pub charge_budget :
    ToolContract → Option ToolExecutionLedger → Option ToolExecutionLedger × Fields
charge_budget c none = (none, end)
charge_budget c (some l) =
    let charged = charge_all c.budget_cost l.remaining_budget in
    (some (record l { remaining_budget = charged.0 }), charged.1)

unfoldable pub keep :
    ToolContract
    → Option String
    → ToolResult
    → Option ToolExecutionLedger
    → Option ToolExecutionLedger
keep c (some k) r (some l) =
    if can_reuse_result c
    then some (record l { cached_results = put_cached k r l.cached_results })
    else some l
keep c _ r l = l

module _ (to_str : Value → String) (bytes : Value → ℕ) where
  unfoldable pub successful_tool_result : Arguments → Value → ToolResult
  successful_tool_result a v = record {
    tool = a.contract.name;
    contract_id = contract_id a.contract;
    ok = true;
    output = if is_summary a.output_mode then none else some v;
    output_ref = a.output_ref;
    output_bytes_estimate = bytes v;
    output_redacted = is_summary a.output_mode;
    error = none;
    failure_class = none;
    warnings = extract_warnings to_str v;
    started_at = a.started_at;
    elapsed_ms = a.elapsed_ms;
    output_summary = summarize_output v;
    metadata = call_metadata a;
  }

  -- A call from the end of the run of its tool. The copies of results, which the source makes after the charge,
  -- are taken not to raise.
  unfoldable pub finish_call :
      Arguments → Outcome → Option ToolExecutionLedger → ToolResult × Option ToolExecutionLedger
  unfolding successful_tool_result
  finish_call a (raised class message) l =
      (failed_tool_result a (join (class ∷ ": " ∷ message ∷ [])), l)
  finish_call a (returned v) l =
      let charged = charge_budget a.contract l in
      let r = with_execution_metadata a.contract charged.1 false (successful_tool_result a v) in
      (r, keep a.contract (key_of a) r charged.0)

  abbrev pub resume {ℓ} :
      {W : Type ℓ}
      → (W → Outcome × W)
      → Arguments
      → W
      → Begun
      → ToolResult × Option ToolExecutionLedger × W
  resume func a w (answered r l) = (r, l, w)
  resume func a w (ready l) =
      let ran = func w in let done = finish_call a ran.0 l in (done.0, done.1, ran.1)

  -- Nothing else touches the ledger between the two parts of a call that is not awaited.
  unfoldable pub run_sync_tool {ℓ} :
      {W : Type ℓ}
      → (W → Outcome × W)
      → Arguments
      → Option ToolExecutionLedger
      → W
      → ToolResult × Option ToolExecutionLedger × W
  run_sync_tool func a l w = resume func a w (begin_call a l)
