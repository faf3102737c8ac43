-- ===== src/StateDb/Queue.antt =====
-- state_db.py: the L3 methods on `async_tasks`, the durable queue of background jobs.
pub mod Operator
pub mod Keys
pub mod Claim
pub mod Eligible
pub mod Idempotent
pub mod Evolution
pub mod Requeue
pub mod Samples
use lit_trace.Base.{
  ℕ, ◌+◌, String, Bool, true, false, not, Option, none, some, List, [], ◌∷◌, ◌++◌, ◌&&◌, ◌||◌, ◌==◌,
  leb, if◌then◌else◌, take, map, length, is_none,
}
use lit_trace.Base.Table.{find, exists, update, select}
use lit_trace.Base.Sort.{sort_by}
use lit_trace.Json.{jsonb}
use lit_trace.StateDb.{
  AsyncTask, TaskStatus, queued, running, completed, failed, dead, Db, Result, ok, err,
  unique_violation, programming_error, task_of,
}

abbrev pub is_queued : TaskStatus → Bool
is_queued queued = true
is_queued _ = false

abbrev pub is_running : TaskStatus → Bool
is_running running = true
is_running _ = false

abbrev pub is_completed : TaskStatus → Bool
is_completed completed = true
is_completed _ = false

abbrev pub is_failed : TaskStatus → Bool
is_failed failed = true
is_failed _ = false

abbrev pub is_dead : TaskStatus → Bool
is_dead dead = true
is_dead _ = false

-- `t IS NOT NULL AND t <= now()`
abbrev pub reached : Option ℕ → ℕ → Bool
reached none now = false
reached (some t) now = leb t now

-- The idempotency key: `ON CONFLICT (session_id, artifact_id, kind, content_sha256)`.
abbrev pub same_work : AsyncTask → AsyncTask → Bool
same_work t r =
    (r.session_id == t.session_id)
    && ((r.artifact_id == t.artifact_id)
        && ((r.kind == t.kind) && (r.content_sha256 == t.content_sha256)))

-- `DO UPDATE SET profile_id, source_revision, event_type, updated_at`: the status stays.
abbrev pub refresh : AsyncTask → ℕ → AsyncTask → AsyncTask
refresh t now r = record r {
  profile_id = t.profile_id;
  source_revision = t.source_revision;
  event_type = t.event_type;
  updated_at = now;
}

abbrev pub persisted : AsyncTask → ℕ → Option AsyncTask → AsyncTask
persisted t now none = record t { updated_at = now }
persisted t now (some r) = record t {
  task_id = r.task_id;
  created_at = r.created_at;
  updated_at = now;
}

-- A new row whose `task_id` is taken violates the primary key.
unfoldable pub enqueue_async_task : AsyncTask → ℕ → Db → Result (AsyncTask × Db)
enqueue_async_task t now db =
    if exists (same_work t) db.tasks
    then ok (
      persisted t now (find (same_work t) db.tasks),
      record db { tasks = update (same_work t) (refresh t now) db.tasks },
    )
    else if exists (task_of t.task_id) db.tasks
    then err unique_violation
    else ok (
      persisted t now none,
      record db {
        tasks = db.tasks ++ record t { result_json = jsonb t.result_json; updated_at = now } ∷ [];
      },
    )

-- `status = 'queued'`, or a failed task whose retry is due, or a running one whose lease ran out.
unfoldable pub is_claimable : ℕ → AsyncTask → Bool
is_claimable now t =
    is_queued t.status
    || (is_failed t.status && reached t.next_attempt_at now
        || is_running t.status && reached t.lease_expires_at now)

abbrev pub matches : Option String → String → Bool
matches none s = true
matches (some k) s = s == k

unfoldable pub member : String → List String → Bool
member s [] = false
member s (x ∷ xs) = if x == s then true else member s xs

abbrev pub among : Option (List String) → String → Bool
among none s = true
among (some ids) s = member s ids

-- The optional filters of `claim_pending_async_tasks`.
pub record Filter : Type 0 where
  pub kind : Option String
  pub session_id : Option String
  pub task_ids : Option (List String)
  pub artifact_ids : Option (List String)

abbrev pub passes : Filter → AsyncTask → Bool
passes f t =
    matches f.kind t.kind
    && (matches f.session_id t.session_id
        && (among f.task_ids t.task_id && among f.artifact_ids t.artifact_id))

-- `SELECT task_id … ORDER BY created_at FOR UPDATE SKIP LOCKED LIMIT %s`. `locked` are the rows that
-- other transactions hold at this moment.
unfoldable pub claim_ids : Filter → (limit now : ℕ) → (String → Bool) → List AsyncTask → List String
unfolding is_claimable member
claim_ids f limit now locked tasks =
    map (λ t. t.task_id)
      (take limit (
        sort_by (λ a b. leb a.created_at b.created_at)
          (select (λ t. is_claimable now t && (passes f t && not (locked t.task_id))) tasks)))

-- `SET status = 'running', attempt_count = attempt_count + 1, …`
abbrev pub grant : String → (now lease : ℕ) → AsyncTask → AsyncTask
grant worker now lease t = record t {
  status = running;
  attempt_count = t.attempt_count + 1;
  lease_owner = some worker;
  lease_expires_at = some (now + lease);
  last_heartbeat_at = some now;
  updated_at = now;
}

-- `WHERE task_id = ANY(%s)`
abbrev pub any_of : List String → AsyncTask → Bool
any_of ids t = member t.task_id ids

-- `lease` is `lease_seconds`, as a duration. An empty set of identifiers selects nothing.
unfoldable pub claim_pending_async_tasks :
    String → Filter → (limit lease now : ℕ) → (String → Bool) → Db → List AsyncTask × Db
unfolding claim_ids
claim_pending_async_tasks worker f limit lease now locked db =
    let ids = claim_ids f limit now locked db.tasks in
    let tasks = update (any_of ids) (grant worker now lease) db.tasks in
    (select (any_of ids) tasks, record db { tasks = tasks })

-- `UPDATE … WHERE task_id = %s`, of ten columns.
abbrev pub set_outcome : AsyncTask → ℕ → AsyncTask → AsyncTask
set_outcome t now r = record r {
  status = t.status;
  attempt_count = t.attempt_count;
  next_attempt_at = t.next_attempt_at;
  last_heartbeat_at = t.last_heartbeat_at;
  lease_owner = t.lease_owner;
  lease_expires_at = t.lease_expires_at;
  last_error = t.last_error;
  result_json = jsonb t.result_json;
  completed_at = t.completed_at;
  updated_at = now;
}

unfoldable pub update_async_task : AsyncTask → ℕ → Db → Db
update_async_task t now db = record db {
  tasks = update (task_of t.task_id) (set_outcome t now) db.tasks;
}

abbrev pub has_status : Option (TaskStatus → Bool) → TaskStatus → Bool
has_status none s = true
has_status (some p) s = p s

-- The status that a caller asks for is a test here.
unfoldable pub list_async_tasks :
    Option (TaskStatus → Bool) → (session kind : Option String) → ℕ → Db → List AsyncTask
list_async_tasks status session kind limit db = take limit (
    sort_by (λ a b. leb b.created_at a.created_at)
      (select
        (λ t. has_status status t.status && (matches session t.session_id && matches kind t.kind))
        db.tasks))
