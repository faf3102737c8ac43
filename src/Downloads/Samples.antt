-- ===== src/Downloads/Samples.antt =====
-- The theorems about the download tasks at one of them.
use lit_trace.Base.{◌≡◌, true, false, none, [], ◌∷◌}
use lit_trace.Base.All.{All}
use lit_trace.Downloads.{DownloadTask, failed, at, retryable, list_retryable, row_of}
use lit_trace.Downloads.Retries.{list_retryable-All}

abbrev task : DownloadTask
task = record {
  task_id = "d1";
  session_id = "s1";
  paper_id = "p1";
  source_name = none;
  source_url = none;
  doi = none;
  access_type = "open";
  requires_login = false;
  status = failed;
  attempt_count = 2;
  max_attempts = 3;
  retry_after = at 40;
  last_error = none;
  target_bucket = none;
  target_object_key = none;
  artifact_id = none;
  sha256 = none;
  size_bytes = none;
  created_at = 1;
  updated_at = 2;
  completed_at = none;
}

list_retryable-All_example :
    All (λ t. retryable 50 t ≡ true) (list_retryable 20 50 (row_of task ∷ []))
list_retryable-All_example = list_retryable-All 20 50 (row_of task ∷ [])
