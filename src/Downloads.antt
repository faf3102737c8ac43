-- ===== src/Downloads.antt =====
-- download_tasks.py: the download tasks of papers, their store and the worker that retries them.
-- Times are microseconds; `retry_after` is a time, since only `schedule_retry` writes it, or a text that is no time.
pub mod Retries
pub mod Samples
use lit_trace.Base.{
  ℕ, ◌+◌, ◌-◌, ◌*◌, ◌/◌, ◌^◌, String, Bool, true, false, not, Option, none, some, List, [], ◌∷◌,
  ◌++◌, ◌&&◌, ◌||◌, ◌==◌, is_none, leb, ltb, min, if◌then◌else◌, length, take, exists, find, update,
  select,
}
use lit_trace.Base.Sort.{sort_by}
use lit_trace.StateDb.{second}

pub data DownloadTaskStatus : Type 0 where
  planned queued fetching_source auth_required source_resolved downloading : DownloadTaskStatus
  uploading_to_object_storage stored verified failed cancelled : DownloadTaskStatus

pub data RetryTime : Type 0 where
  never : RetryTime
  at : ℕ → RetryTime
  not_a_time : RetryTime

pub record DownloadTask : Type 0 where
  pub task_id : String
  pub session_id : String
  pub paper_id : String
  pub source_name : Option String
  pub source_url : Option String
  pub doi : Option String
  pub access_type : String
  pub requires_login : Bool
  pub status : DownloadTaskStatus
  pub attempt_count : ℕ
  pub max_attempts : ℕ
  pub retry_after : RetryTime
  pub last_error : Option String
  pub target_bucket : Option String
  pub target_object_key : Option String
  pub artifact_id : Option String
  pub sha256 : Option String
  pub size_bytes : Option ℕ
  pub created_at : ℕ
  pub updated_at : ℕ
  pub completed_at : Option ℕ

abbrev pub awaits_run : DownloadTaskStatus → Bool
awaits_run failed = true
awaits_run queued = true
awaits_run _ = false

abbrev pub is_auth_required : DownloadTaskStatus → Bool
is_auth_required auth_required = true
is_auth_required _ = false

abbrev pub is_finished : DownloadTaskStatus → Bool
is_finished stored = true
is_finished verified = true
is_finished _ = false

abbrev pub due : RetryTime → ℕ → Bool
due never now = true
due (at t) now = leb t now
due not_a_time now = true

-- The property `retryable`.
unfoldable pub retryable : ℕ → DownloadTask → Bool
retryable now t =
    if not (awaits_run t.status)
    then false
    else if t.requires_login && is_auth_required t.status
    then false
    else if leb t.max_attempts t.attempt_count
    then false
    else due t.retry_after now

abbrev pub set_completed : DownloadTaskStatus → ℕ → Option ℕ → Option ℕ
set_completed status now old = if is_finished status then some now else old

unfoldable pub mark : DownloadTaskStatus → Option String → ℕ → DownloadTask → DownloadTask
mark status error now t = record t {
  status = status;
  last_error = error;
  updated_at = now;
  completed_at = set_completed status now t.completed_at;
}

-- The delay before the jitter: doubled for each attempt, and at most an hour.
unfoldable pub base_delay : (base_delay_seconds attempt_count : ℕ) → ℕ
base_delay base_delay_seconds attempt_count =
    min (base_delay_seconds * 2 ^ (attempt_count - 1)) (3600 * second)

-- `random` is a draw of `random.random()`, in millionths; the delay is cut to whole seconds.
unfoldable pub schedule_retry : (base_delay_seconds random now : ℕ) → DownloadTask → DownloadTask
unfolding base_delay
schedule_retry base_delay_seconds random now t =
    let jitter =
      base_delay base_delay_seconds t.attempt_count * (8 * 100000 + 4 * random / 10) / 1000000 in
    record t { retry_after = at (now + jitter / second * second); updated_at = now }

-- A row of `download_tasks`: its columns are those of the task, and so is its payload.
abbrev pub same_paper : DownloadTask → DownloadTask → Bool
same_paper t r = (r.session_id == t.session_id) && (r.paper_id == t.paper_id)

-- The columns keep `task_id` and `created_at` of the row that is there; the payload is the new task.
pub record TaskRow : Type 0 where
  pub task_id : String
  pub created_at : ℕ
  pub payload : DownloadTask

abbrev pub row_of : DownloadTask → TaskRow
row_of t = record { task_id = t.task_id; created_at = t.created_at; payload = t }

-- `ON CONFLICT (session_id, paper_id)`; a new row whose `task_id` is taken is none: it violates the primary key.
unfoldable pub upsert : DownloadTask → List TaskRow → Option (List TaskRow)
upsert t rows =
    if exists (λ r. same_paper t r.payload) rows
    then some (update (λ r. same_paper t r.payload) (λ r. record r { payload = t }) rows)
    else if exists (λ r. r.task_id == t.task_id) rows
    then none
    else some (rows ++ row_of t ∷ [])

abbrev pub payload_of : Option TaskRow → Option DownloadTask
payload_of none = none
payload_of (some r) = some r.payload

unfoldable pub get : String → List TaskRow → Option DownloadTask
get id rows = payload_of (find (λ r. r.task_id == id) rows)

abbrev pub payloads : List TaskRow → List DownloadTask
payloads [] = []
payloads (r ∷ rs) = r.payload ∷ payloads rs

-- `retry_after IS NULL OR retry_after <= now()`; the column holds times only.
abbrev pub is_listed : ℕ → TaskRow → Bool
is_listed now r =
    awaits_run r.payload.status
    && (ltb r.payload.attempt_count r.payload.max_attempts && due r.payload.retry_after now)

unfoldable pub list_retryable : (limit now : ℕ) → List TaskRow → List DownloadTask
list_retryable limit now rows = payloads (
    take limit (
      sort_by (λ a b. leb a.payload.updated_at b.payload.updated_at) (select (is_listed now) rows)))

unfoldable pub list_for_session : String → List TaskRow → List DownloadTask
list_for_session id rows = payloads (
    sort_by (λ a b. leb b.payload.updated_at a.payload.updated_at)
      (select (λ r. r.payload.session_id == id) rows))

-- `DownloadRetryWorker.run_once`: the tasks that it listed, each through the handler and back. The handler
-- is one that does not raise.
unfoldable pub run_each :
    (DownloadTask → DownloadTask) → List DownloadTask → List TaskRow → Option (List TaskRow)
run_each handler [] rows = some rows
run_each handler (t ∷ ts) rows = elim (upsert (handler t) rows) [
  | none ↦ none
  | some rows' ↦ run_each handler ts rows'
]

unfoldable pub run_once :
    (DownloadTask → DownloadTask) → (batch_size now : ℕ) → List TaskRow → Option (ℕ × List TaskRow)
unfolding list_retryable
run_once handler batch_size now rows =
    let tasks = list_retryable batch_size now rows in
    elim (run_each handler tasks rows) [ none ↦ none | some rows' ↦ some (length tasks, rows') ]
