-- ===== src/Jobs/Download/Samples.antt =====
-- The theorems about the download jobs at small queues.
use lit_trace.Base.{
  ◌+◌, ◌*◌, String, ◌≡◌, refl, ◌⊎◌, inr, false, Option, none, some, List, [], ◌∷◌, ◌++◌, arith,
  length, map, find,
}
use lit_trace.Base.Unique.{first_occurrences, IsWithin}
use lit_trace.Base.Table.{update, select, exists}
use lit_trace.Base.Words.{is_blank, is_space}
use lit_trace.Json.{
  Json, null, str, list, dict, Items, nil, cons, end, get, jsonb, sanitize_json_value,
}
use lit_trace.Context.{Paper}
use lit_trace.Context.Papers.{Workspace}
use lit_trace.StateDb.{
  AsyncTask, queued, Db, Error, Result, ok, err, value_error, second, is_frozen,
}
use lit_trace.StateDb.Samples.{db, task}
use lit_trace.StateDb.Session.{get_session_state}
use lit_trace.StateDb.Binding.{get_agent_thread_binding_by_thread_id}
use lit_trace.StateDb.Trail.{
  ensure_chat_trail, ensure_session, ensure_trail, append_recent, update_trail,
}
use lit_trace.StateDb.Tool.{
  commit_agent_workspace_tool, commit_found, commit_fresh, check_request, check_task, check_session,
  write_workspace, insert_task,
}
use lit_trace.StateDb.Queue.{claim_pending_async_tasks}
use lit_trace.Gateway.{strict_non_negative_int}
use lit_trace.Gateway.Tools.{load_workspace, clean_ids, commit_workspace_tool}
use lit_trace.Gateway.Enqueue.{
  download_ids, papers_of, plan_download, enqueue_download, download_task,
}
use lit_trace.Gateway.Queued.{IsQueued}
use lit_trace.Gateway.Samples.{
  paper_fields, paper, loaded, lib, bound, binding, download, enqueued, db_of_result,
}
use lit_trace.Jobs.{RetryPolicy}
use lit_trace.Jobs.Download.{
  Decoder, DownloadExecutionRequest, DownloadExecutionResult, run_pending_download_jobs,
  download_filter,
}
use lit_trace.Jobs.Download.Settled.{SettledIn, run_before, run_pending_download_jobs-IsSettled}

abbrev text_in : Option Json → String
text_in (some (str s)) = s
text_in _ = ""

abbrev optional_in : Option Json → Option String
optional_in (some (str s)) = some s
optional_in _ = none

abbrev texts_of : Items → List String
texts_of nil = []
texts_of (cons x xs) = text_in (some x) ∷ texts_of xs

abbrev texts_in : Option Json → List String
texts_in (some (list xs)) = texts_of xs
texts_in _ = []

-- A paper from its fields.
abbrev paper_from : Json → Result Paper
paper_from (dict fs) = ok (record {
  paper_id = text_in (get "paper_id" fs);
  title = text_in (get "title" fs);
  journal = optional_in (get "journal" fs);
  publisher = optional_in (get "publisher" fs);
  doi = optional_in (get "doi" fs);
  source_urls = texts_in (get "source_urls" fs);
  pdf_url = optional_in (get "pdf_url" fs);
})
paper_from _ = err value_error

abbrev decoder : Decoder
decoder = record { str_of = λ v. "1"; validate_paper = paper_from; default_filters = end }

abbrev job : AsyncTask
job =
    download_task lib binding "download-1" ("p1" ∷ []) "local_and_storage" 3
      (cons (dict (paper_fields paper)) nil) 10

job_queued :
    (db_of_result enqueued).tasks
    ≡ bound.tasks ++ record job { result_json = jsonb job.result_json } ∷ []
unfolding enqueue_download load_workspace plan_download papers_of commit_workspace_tool
    get_session_state get_agent_thread_binding_by_thread_id strict_non_negative_int clean_ids
    first_occurrences select exists commit_agent_workspace_tool commit_found commit_fresh
    check_request check_task is_blank is_space check_session write_workspace insert_task
    ensure_chat_trail ensure_session ensure_trail append_recent update_trail find update is_frozen
    sanitize_json_value
job_queued = refl

asked_ids : download_ids lib loaded download.paper_ids ≡ ok ("p1" ∷ [])
unfolding clean_ids first_occurrences select
asked_ids = refl

dumped_papers : papers_of lib ("p1" ∷ []) loaded ≡ ok (cons (dict (paper_fields paper)) nil)
unfolding papers_of find
dumped_papers = refl

asked_active : IsWithin ("p1" ∷ []) ("p1" ∷ "p2" ∷ [])
asked_active x m = ground arith

abbrev queue_after : IsQueued lib download binding loaded 10 bound (db_of_result enqueued)
queue_after = record {
  expected = 3;
  paper_ids = "p1" ∷ [];
  papers = cons (dict (paper_fields paper)) nil;
  asked = asked_ids;
  dumped = dumped_papers;
  some_ids = refl;
  few = omega arith;
  allowed = refl;
  active = asked_active;
  queue = job_queued;
}

-- The executor downloads every paper.
abbrev executor : Workspace → DownloadExecutionRequest → String ⊎ DownloadExecutionResult
executor ws request = inr (record {
  downloaded_count = length request.paper_ids;
  requires_login_count = 0;
  dumped = null;
})

abbrev error_text : Error → String
error_text e = "ValueError"

abbrev policy : RetryPolicy
policy = record { max_attempts = 3; base_delay_seconds = 60 * second }

-- A job as it was queued, and one without a command.
abbrev jobs : Db
jobs = record db { tasks = job ∷ record task { status = queued; kind = "download_job" } ∷ [] }

run_pending_download_jobs-IsSettled_example :
    let claimed =
      (claim_pending_async_tasks "w1" download_filter 5 (120 * second) 20 (λ id. false) jobs).0 in
    let done =
      run_pending_download_jobs decoder executor error_text policy 20 "w1" 5 30
        (λ id. false)
        jobs in
    SettledIn decoder executor error_text policy 20 (run_before claimed []) done.0
    × (done.1.job_ids ≡ map (λ t. t.task_id) claimed)
    × (done.1.processed + done.1.failed ≡ length claimed)
    × (length done.1.warnings ≡ done.1.failed)
run_pending_download_jobs-IsSettled_example =
    run_pending_download_jobs-IsSettled decoder executor error_text policy 20 "w1" 5 30
      (λ id. false) jobs
