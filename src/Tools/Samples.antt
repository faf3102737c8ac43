-- ===== src/Tools/Samples.antt =====
-- The theorems about tool calls at calls of the search tool, on a world that counts them.
use lit_trace.Base.{ℕ, ◌+◌, String, ◌≡◌, ◌↔◌, refl, true, false, none, some, [], ◌∷◌, arith}
use lit_trace.Json.{empty}
use lit_trace.Tools.{ToolExecutionPolicy, policy_blocked, violation_for}
use lit_trace.Tools.Values.{Value, object, no_more}
use lit_trace.Tools.Budget.{left, over, short_of, charge_all}
use lit_trace.Tools.Call.{
  Arguments, inline, Outcome, returned, ToolResult, ready, begin_call, with_execution_metadata,
  fill_opt, reusable, fill, begin_filled, begin_funded, budget_violation, execution_key,
}
use lit_trace.Tools.Run.{finish_call, run_sync_tool}
use lit_trace.Tools.Contracts.{search_papers}
use lit_trace.Tools.Policy.{IsAllowed, violation_for-IsAllowed_iff, run_sync_tool-blocked}
use lit_trace.Tools.Solvency.{Holds, total_spent, run_all, run_all-Balances}
use lit_trace.Tools.Reuse.{run_sync_tool-reused}
use lit_trace.Tools.Overlap.{ledger_with, overlap-overspends}

abbrev show : Value → String
show v = "value"

abbrev size : Value → ℕ
size v = 8

abbrev papers : Value
papers = object "PaperSearchResult" no_more

-- The tool counts its runs.
abbrev search : ℕ → Outcome × ℕ
search w = (returned papers, w + 1)

abbrev offline : ToolExecutionPolicy
offline = record {
  allow_network = false;
  allow_workspace_mutation = true;
  allow_side_effects = [];
  allowed_tools = [];
  react_only = false;
  budget_limits = [];
}

abbrev asked : Arguments
asked = record {
  contract = search_papers;
  context = none;
  policy = none;
  metadata = empty;
  output_mode = inline;
  output_ref = none;
  idempotency_key = some "q1";
  started_at = 0;
  elapsed_ms = 1;
}

abbrev unkeyed : Arguments
unkeyed = record asked { idempotency_key = none }

abbrev asked_offline : Arguments
asked_offline = record asked { policy = some offline }

violation_for-IsAllowed_example :
    (violation_for offline search_papers ≡ none) ↔ IsAllowed offline search_papers
violation_for-IsAllowed_example = violation_for-IsAllowed_iff offline search_papers

run_sync_tool-blocked_example :
    (r : ToolResult) × (run_sync_tool show size search asked_offline none 0 ≡ (r, none, 0))
    × (r.ok ≡ false)
    × (r.failure_class ≡ some policy_blocked)
run_sync_tool-blocked_example =
    run_sync_tool-blocked show size search asked_offline offline none 0 refl
      (λ a. cc (a.on_network refl))

run_all-Balances_example :
    (m : ℕ) × Holds "requests" m
      (run_all show size
        ((search, unkeyed) ∷ (search, unkeyed) ∷ [])
        (some (ledger_with "requests" (left 3) []))
        0).1
    × (m
          + total_spent "requests"
              (run_all show size
                ((search, unkeyed) ∷ (search, unkeyed) ∷ [])
                (some (ledger_with "requests" (left 3) []))
                0).0
        ≡ 3)
run_all-Balances_example =
    run_all-Balances show size "requests" 3 ((search, unkeyed) ∷ (search, unkeyed) ∷ [])
      (some (ledger_with "requests" (left 3) [])) 0 ((tt, tt), ((tt, tt), tt)) refl

abbrev asked_else : Arguments
asked_else = record asked { idempotency_key = some "q2" }

run_sync_tool-reused_example :
    let first =
      run_sync_tool show size search asked (some (ledger_with "requests" (left 3) [])) 0 in
    let after = (run_all show size ((search, asked_else) ∷ (search, unkeyed) ∷ []) first.1 1).1 in
    run_sync_tool show size search asked after 7
    ≡ (with_execution_metadata search_papers empty true first.0, fill_opt none after, 7)
unfolding run_sync_tool begin_call begin_filled begin_funded budget_violation reusable fill short_of
    charge_all finish_call execution_key with_execution_metadata
run_sync_tool-reused_example =
    run_sync_tool-reused show size search search asked asked "search_papers:v1:q1"
      (ledger_with "requests" (left 3) []) 0 1 7 ((search, asked_else) ∷ (search, unkeyed) ∷ [])
      refl refl refl refl refl refl refl

overlap-overspends_example :
    let l = some (ledger_with "requests" (left 3) []) in
    let first = finish_call show size unkeyed (returned papers) l in
    let second = finish_call show size unkeyed (returned papers) first.1 in
    (begin_call unkeyed l ≡ ready l)
    × (first.0.ok ≡ true)
    × (second.0.ok ≡ true)
    × (second.1 ≡ some (ledger_with "requests" (over 0) []))
unfolding execution_key
overlap-overspends_example =
    overlap-overspends unkeyed "requests" 2 [] refl refl refl show size papers papers 3
      (omega arith) (omega arith)
