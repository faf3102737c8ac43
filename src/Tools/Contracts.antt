-- ===== src/Tools/Contracts.antt =====
-- tool_contracts.py `LITTRACE_TOOL_CONTRACTS`: the contracts of the tools, and their summary.
use lit_trace.Base.{
  ℕ, ◌+◌, String, Bool, true, false, not, Option, none, some, List, [], ◌∷◌, ◌==◌, if◌then◌else◌,
  length, map,
}
use lit_trace.Base.Table.{find, select}
use lit_trace.Tools.{ToolContract}

-- A contract with the defaults of the class.
abbrev contract : (name category description : String) → ToolContract
contract name category description = record {
  name = name;
  version = "v1";
  category = category;
  description = description;
  input_schema = none;
  output_schema = none;
  side_effects = [];
  requires_network = false;
  mutates_workspace = false;
  allow_in_react = true;
  idempotent = true;
  cache_policy = "none";
  provenance_outputs = [];
  quality_requirements = [];
  budget_cost = [];
}

abbrev pub skill_creator : ToolContract
skill_creator =
    record (contract "skill_creator" "meta"
      "Generate a SKILL.md + run.py skeleton for a new skill.") {
        input_schema = some "skill_name + description + when_to_use";
        output_schema = some "dict[str, str]";
      }

abbrev pub review_agent : ToolContract
review_agent =
    record (contract "review_agent" "meta" "Self-check the current workspace before submission.") {
      input_schema = some "ChatSession + LiteratureWorkspace";
      output_schema = some "dict with score and findings";
    }

abbrev pub build_research_plan : ToolContract
build_research_plan =
    record (contract "build_research_plan" "planning"
      "Build an evidence-first plan for a research objective.") {
        input_schema = some "Research objective + LiteratureWorkspace";
        output_schema = some "ResearchPlan";
      }

abbrev pub search_papers : ToolContract
search_papers =
    record (contract "search_papers" "retrieval"
      "Search literature sources and return ranked paper metadata.") {
        input_schema = some "PaperSearchRequest";
        output_schema = some "PaperSearchResult";
        requires_network = true;
        cache_policy = "source_ttl";
        provenance_outputs = "SourceRecord" ∷ "CanonicalWork" ∷ "ResolutionDecision" ∷ [];
        quality_requirements = "identity_resolution" ∷ [];
        budget_cost = ("requests", 2) ∷ [];
      }

abbrev pub resolve_workspace_full_text : ToolContract
resolve_workspace_full_text =
    record (contract "resolve_workspace_full_text" "access"
      "Resolve full-text candidates for active workspace papers.") {
        input_schema = some "LiteratureWorkspace";
        output_schema = some "LiteratureWorkspace";
        requires_network = true;
        mutates_workspace = true;
      }

abbrev pub build_download_plan : ToolContract
build_download_plan =
    record (contract "build_download_plan" "access"
      "Plan compliant local PDF downloads for active workspace papers.") {
        input_schema = some "LiteratureWorkspace";
        output_schema = some "DownloadPlan";
      }

abbrev pub execute_downloads : ToolContract
execute_downloads =
    record (contract "execute_downloads" "access"
      "Execute compliant PDF downloads for selected active workspace papers.") {
        input_schema = some "DownloadExecutionRequest + LiteratureWorkspace";
        output_schema = some "DownloadExecutionResult";
        side_effects = "network" ∷ "filesystem" ∷ [];
        requires_network = true;
        idempotent = false;
      }

abbrev pub parse_workspace_papers : ToolContract
parse_workspace_papers =
    record (contract "parse_workspace_papers" "document_parsing"
      "Parse available local PDFs into structured document evidence.") {
        input_schema = some "LiteratureWorkspace";
        output_schema = some "tuple[LiteratureWorkspace, parse_report]";
        mutates_workspace = true;
      }

abbrev pub audit_citation_links : ToolContract
audit_citation_links =
    record (contract "audit_citation_links" "evidence" "Check citation links for active papers.") {
      input_schema = some "list[PaperMetadata]";
      output_schema = some "CitationAudit";
      requires_network = true;
    }

abbrev pub extract_performance_cells : ToolContract
extract_performance_cells =
    record (contract "extract_performance_cells" "extraction"
      "Extract performance metrics from parsed paper evidence.") {
        input_schema = some "LiteratureWorkspace";
        output_schema = some "tuple[LiteratureWorkspace, harness_report]";
        mutates_workspace = true;
        provenance_outputs = "EvidenceSpan" ∷ [];
        quality_requirements = "extraction_verifier" ∷ [];
      }

abbrev pub build_comparison_matrices : ToolContract
build_comparison_matrices =
    record (contract "build_comparison_matrices" "synthesis"
      "Build comparison matrices from extracted performance cells.") {
        input_schema = some "LiteratureWorkspace";
        output_schema = some "ComparisonMatrixReport";
      }

abbrev pub build_storyline_from_workspace : ToolContract
build_storyline_from_workspace =
    record (contract "build_storyline_from_workspace" "synthesis"
      "Build evidence-linked storyline claims from workspace papers.") {
        input_schema = some "LiteratureWorkspace";
        output_schema = some "list[StorylineClaim]";
      }

abbrev pub build_research_document_report : ToolContract
build_research_document_report =
    record (contract "build_research_document_report" "synthesis"
      "Compose an auditable research document from workspace evidence.") {
        input_schema = some "LiteratureWorkspace";
        output_schema = some "ResearchDocumentReport";
        provenance_outputs = "Claim" ∷ "VerificationReport" ∷ "ReleaseSnapshot" ∷ [];
        quality_requirements = "claim_verifier" ∷ "publication_gate" ∷ [];
      }

abbrev pub build_quality_metrics : ToolContract
build_quality_metrics =
    record (contract "build_quality_metrics" "evaluation"
      "Compute retrieval, parsing, storyline, and interaction quality metrics.") {
        input_schema = some "LiteratureWorkspace";
        output_schema = some "dict[str, object]";
      }

abbrev pub quality_report : ToolContract
quality_report =
    record (contract "quality_report" "evaluation"
      "Build a quality report for the current workspace.") {
        input_schema = some "LiteratureWorkspace + LitTraceConfig";
        output_schema = some "QualityReport";
      }

abbrev pub export_session_bundle : ToolContract
export_session_bundle =
    record (contract "export_session_bundle" "export"
      "Export a session bundle of research artifacts and summaries.") {
        input_schema = some "ChatSession + LiteratureWorkspace";
        output_schema = some "dict[str, str]";
        mutates_workspace = false;
        provenance_outputs = "ReleaseSnapshot" ∷ [];
        quality_requirements = "publication_gate" ∷ [];
      }

abbrev pub littrace_tool_contracts : List ToolContract
littrace_tool_contracts =
    skill_creator ∷ review_agent ∷ build_research_plan ∷ search_papers ∷ resolve_workspace_full_text
    ∷ build_download_plan ∷ execute_downloads ∷ parse_workspace_papers ∷ audit_citation_links
    ∷ extract_performance_cells ∷ build_comparison_matrices ∷ build_storyline_from_workspace
    ∷ build_research_document_report ∷ build_quality_metrics ∷ quality_report
    ∷ export_session_bundle ∷ []

-- `none` for a `KeyError`.
unfoldable pub tool_contract : String → Option ToolContract
tool_contract name = find (λ c. c.name == name) littrace_tool_contracts

-- `categories[k] = categories.get(k, 0) + 1`
abbrev pub count_one : String → List (String × ℕ) → List (String × ℕ)
count_one k [] = (k, 1) ∷ []
count_one k (n ∷ ns) = if n.0 == k then (k, n.1 + 1) ∷ ns else n ∷ count_one k ns

unfoldable pub count_categories : List (String × ℕ) → List ToolContract → List (String × ℕ)
count_categories counted [] = counted
count_categories counted (c ∷ cs) = count_categories (count_one c.category counted) cs

pub record ToolContractSummary : Type 0 where
  pub count : ℕ
  pub categories : List (String × ℕ)
  pub network_tools : List String
  pub idempotent_tools : List String
  pub cached_tools : List String
  pub workspace_mutation_tools : List String
  pub react_allowed_tools : List String

abbrev pub names_where : (ToolContract → Bool) → List ToolContract → List String
names_where p cs = map (λ c. c.name) (select p cs)

-- The summary of the source, of any contracts.
unfoldable pub summary_of : List ToolContract → ToolContractSummary
unfolding count_categories
summary_of cs = record {
  count = length cs;
  categories = count_categories [] cs;
  network_tools = names_where (λ c. c.requires_network) cs;
  idempotent_tools = names_where (λ c. c.idempotent) cs;
  cached_tools = names_where (λ c. not (c.cache_policy == "none")) cs;
  workspace_mutation_tools = names_where (λ c. c.mutates_workspace) cs;
  react_allowed_tools = names_where (λ c. c.allow_in_react) cs;
}
