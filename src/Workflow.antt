-- ===== src/Workflow.antt =====
-- workflow_status.py: the transitions of the research workflow, and the counts of the report.
pub mod Report
use lit_trace.Base.{
  ℕ, zero, suc, ◌+◌, String, Bool, true, false, not, List, [], ◌∷◌, ◌&&◌, ◌||◌, ◌==◌, if◌then◌else◌,
  take, ◌++◌,
}
use lit_trace.Context.{contains}

pub data Status : Type 0 where
  complete ready blocked : Status

-- The fields of `WorkflowTransition` that are computed, or that the report reads.
pub record WorkflowTransition : Type 0 where
  pub target : String
  pub status : Status
  pub blocking_if_missing : Bool

-- What `build_workflow_status` reads of a workspace.
pub record Facts : Type 0 where
  pub has_papers : Bool
  pub has_full_text : Bool
  pub has_parsed : Bool
  pub has_cells : Bool
  pub has_storyline : Bool
  pub has_guard_reports : Bool
  pub has_document : Bool
  pub has_review : Bool

abbrev pub status_of : (done can_start : Bool) → Status
status_of done can_start = if done then complete else if can_start then ready else blocked

abbrev pub transition : String → Status → WorkflowTransition
transition target status = record { target = target; status = status; blocking_if_missing = true }

unfoldable pub transitions_of : Facts → List WorkflowTransition
transitions_of f =
    transition "search_papers skill" (status_of f.has_papers true)
    ∷ transition "full-text access skills" (status_of f.has_full_text f.has_papers)
    ∷ transition "parse_workspace_papers skill" (status_of f.has_parsed f.has_papers)
    ∷ transition "extraction and synthesis skills"
        (status_of (f.has_document || f.has_cells && f.has_storyline) f.has_parsed)
    ∷ transition "citation and evidence gates" (status_of f.has_guard_reports f.has_papers)
    ∷ record {
      target = "Optional Reviewer";
      status = status_of f.has_review f.has_document;
      blocking_if_missing = false;
    }
    ∷ []

abbrev pub is_ready : Status → Bool
is_ready ready = true
is_ready _ = false

abbrev pub is_blocked : Status → Bool
is_blocked blocked = true
is_blocked _ = false

abbrev pub is_complete : Status → Bool
is_complete complete = true
is_complete _ = false

abbrev pub count_of : (Status → Bool) → List WorkflowTransition → ℕ
count_of p [] = 0
count_of p (t ∷ ts) = (if p t.status then 1 else 0) + count_of p ts

-- The loop of `_recommended_next_steps`, from the steps that it has.
abbrev pub next_steps : List WorkflowTransition → List String → List String
next_steps [] steps = steps
next_steps (t ∷ ts) steps =
    next_steps ts
      (if is_ready t.status && not (contains t.target steps) then steps ++ t.target ∷ [] else steps)

unfoldable pub recommended_next_steps : List WorkflowTransition → List String
unfolding contains
recommended_next_steps ts = take 4 (next_steps ts [])

pub record WorkflowStatusReport : Type 0 where
  pub transitions : List WorkflowTransition
  pub ready_count : ℕ
  pub blocked_count : ℕ
  pub complete_count : ℕ
  pub recommended : List String

unfoldable pub build_workflow_status : Facts → WorkflowStatusReport
unfolding transitions_of recommended_next_steps
build_workflow_status f =
    let ts = transitions_of f in
    record {
      transitions = ts;
      ready_count = count_of is_ready ts;
      blocked_count = count_of is_blocked ts;
      complete_count = count_of is_complete ts;
      recommended = recommended_next_steps ts;
    }
