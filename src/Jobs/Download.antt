-- ===== src/Jobs/Download.antt =====
-- download_jobs.py: a batch of download jobs, from the claim to the rows that it writes back. The texts
-- of values, the validation of papers and the executor of a request are parameters.
pub mod Settled
pub mod Command
pub mod Samples
use Prim.Native.String
use lit_trace.Base.{
  ℕ, ◌+◌, ◌*◌, String, Bool, true, false, not, Option, none, some, List, [], ◌∷◌, ◌++◌, ◌⊎◌, inl,
  inr, ◌==◌, if◌then◌else◌, join, map, max, nat_eq,
}
use lit_trace.Base.Unique.{first_occurrences}
use lit_trace.Base.Table.{select, or_else}
use lit_trace.Json.{
  Json, null, bool, num, str, list, tuple, dict, other, Items, nil, cons, Fields, end, get,
}
use lit_trace.Context.{Paper}
use lit_trace.Context.Papers.{Workspace}
use lit_trace.StateDb.{
  AsyncTask, Db, Result, ok, err, Error, value_error, type_error, second, ◌>>=◌, ◌>>◌, raise_if,
}
use lit_trace.StateDb.Queue.{Filter, claim_pending_async_tasks}
use lit_trace.Gateway.Enqueue.{is_target}
use lit_trace.Jobs.{RetryPolicy, mark_download_job_completed, mark_download_job_failed}

-- `str(value)`, `PaperMetadata.model_validate`, and the dump of `WorkspaceFilters()`.
pub record Decoder : Type 0 where
  pub str_of : Json → String
  pub validate_paper : Json → Result Paper
  pub default_filters : Fields

pub record DownloadExecutionRequest : Type 0 where
  pub paper_ids : List String
  pub session_id : String
  pub target : String

-- `not value`
abbrev pub is_falsy : Json → Bool
is_falsy null = true
is_falsy (bool b) = not b
is_falsy (num n) = nat_eq n 0
is_falsy (str s) = s == ""
is_falsy (list nil) = true
is_falsy (tuple nil) = true
is_falsy (dict end) = true
is_falsy _ = false

-- `isinstance(command, dict)`
abbrev pub command_of : Option Json → Result Fields
command_of (some (dict fs)) = ok fs
command_of _ = err type_error

-- `isinstance(raw_ids, list)` and not empty.
abbrev pub raw_ids_of : Option Json → Result Items
raw_ids_of (some (list (cons x xs))) = ok (cons x xs)
raw_ids_of _ = err value_error

abbrev pub raw_papers_of : Option Json → Result Items
raw_papers_of (some (list xs)) = ok xs
raw_papers_of _ = err type_error

-- `by_id[id]`: of two papers with the identifier the later one.
abbrev pub by_id : String → List Paper → Option Paper
by_id id [] = none
by_id id (p ∷ ps) = or_else (by_id id ps) (if p.paper_id == id then some p else none)

abbrev pub present : Option Paper → Result Paper
present none = err value_error
present (some p) = ok p

-- The papers of the identifiers; the source raises if one is missing.
unfoldable pub papers_by_id : List String → List Paper → Result (List Paper)
papers_by_id [] ps = ok []
papers_by_id (id ∷ ids) ps = do p ← present (by_id id ps); more ← papers_by_id ids ps; ok (p ∷ more)

module _ (d : Decoder) where
  open d use {str_of, validate_paper, default_filters}

  abbrev pub text_of_item : Json → String
  text_of_item (str s) = s
  text_of_item v = str_of v

  abbrev pub texts_of_items : Items → List String
  texts_of_items nil = []
  texts_of_items (cons x xs) = text_of_item x ∷ texts_of_items xs

  abbrev pub distinct_ids : Items → List String
  distinct_ids raw = first_occurrences [] (select (λ s. not (s == "")) (texts_of_items raw))

  unfoldable pub validate_papers : Items → Result (List Paper)
  validate_papers nil = ok []
  validate_papers (cons x xs) = do p ← validate_paper x; ps ← validate_papers xs; ok (p ∷ ps)

  -- `str(command.get("target") or "local_and_storage")`
  abbrev pub target_text : Option Json → String
  target_text none = "local_and_storage"
  target_text (some v) = if is_falsy v then "local_and_storage" else text_of_item v

  -- `LiteratureWorkspace(papers=…)`, with the active papers that are set then.
  abbrev pub workspace_of : List String → List Paper → Workspace
  workspace_of ids ps = record {
    context = record {
      visible_to_user = true;
      active_papers = ids;
      excluded_papers = [];
      pinned_papers = [];
      importance_levels = [];
      selected_for_download = [];
      filters = default_filters;
    };
    papers = ps;
    source_records = [];
    canonical_works = [];
    resolution_decisions = [];
  }

  unfoldable pub execution_input : AsyncTask → Result (Workspace × DownloadExecutionRequest)
  unfolding first_occurrences validate_papers papers_by_id
  execution_input job = do
    command ← command_of (get "command" job.result_json)
    raw_ids ← raw_ids_of (get "paper_ids" command)
    raw_papers ← raw_papers_of (get "papers" command)
    papers ← validate_papers raw_papers
    found ← papers_by_id (distinct_ids raw_ids) papers
    raise_if (not (is_target (target_text (get "target" command)))) value_error
    ok (
      workspace_of (distinct_ids raw_ids) found,
      record {
        paper_ids = distinct_ids raw_ids;
        session_id = job.session_id;
        target = target_text (get "target" command);
      },
    )

-- `DownloadExecutionResult`, with its dump.
pub record DownloadExecutionResult : Type 0 where
  pub downloaded_count : ℕ
  pub requires_login_count : ℕ
  pub dumped : Json

pub record DownloadJobBatchReport : Type 0 where
  pub processed : ℕ
  pub failed : ℕ
  pub downloaded : ℕ
  pub requires_login : ℕ
  pub job_ids : List String
  pub warnings : List String

abbrev pub new_report : DownloadJobBatchReport
new_report = record {
  processed = 0;
  failed = 0;
  downloaded = 0;
  requires_login = 0;
  job_ids = [];
  warnings = [];
}

abbrev pub download_filter : Filter
download_filter = record {
  kind = some "download_job";
  session_id = none;
  task_ids = none;
  artifact_ids = none;
}

-- The executor gives a result, or the text of the exception that it raises. One reading of the clock
-- stands for those of a batch.
module _ (d : Decoder)
    (executor : Workspace → DownloadExecutionRequest → String ⊎ DownloadExecutionResult)
    (error_text : Error → String) (policy : RetryPolicy) (now : ℕ) where
  abbrev pub execute :
      Result (Workspace × DownloadExecutionRequest) → String ⊎ DownloadExecutionResult
  execute (err e) = inl (error_text e)
  execute (ok (ws, request)) = executor ws request

  abbrev pub finish :
      AsyncTask
      → String ⊎ DownloadExecutionResult
      → Db × DownloadJobBatchReport
      → Db × DownloadJobBatchReport
  finish job (inr result) (db, report) = (
    mark_download_job_completed result.dumped now job db,
    record report {
      job_ids = report.job_ids ++ job.task_id ∷ [];
      processed = report.processed + 1;
      downloaded = report.downloaded + result.downloaded_count;
      requires_login = report.requires_login + result.requires_login_count;
    },
  )
  finish job (inl error) (db, report) = (
    mark_download_job_failed error policy now job db,
    record report {
      job_ids = report.job_ids ++ job.task_id ∷ [];
      failed = report.failed + 1;
      warnings = report.warnings ++ join ("download_job:" ∷ job.task_id ∷ ":" ∷ error ∷ []) ∷ [];
    },
  )

  unfoldable pub run_jobs :
      List AsyncTask → Db × DownloadJobBatchReport → Db × DownloadJobBatchReport
  unfolding execution_input mark_download_job_completed mark_download_job_failed
  run_jobs [] s = s
  run_jobs (job ∷ jobs) s = run_jobs jobs (finish job (execute (execution_input d job)) s)

  -- `interval` is the time between two batches.
  unfoldable pub run_pending_download_jobs :
      (owner : String)
      → (limit interval : ℕ) → (locked : String → Bool) → Db
      → Db × DownloadJobBatchReport
  unfolding run_jobs
  run_pending_download_jobs owner limit interval locked db =
      let claimed =
        claim_pending_async_tasks owner download_filter (max 1 limit)
          (max (interval * 4) (120 * second)) now locked db in
      run_jobs claimed.0 (claimed.1, new_report)
