-- ===== src/StateDb.antt =====
-- state_db.py: the rows of the tables, the database, and the error that a method raises.
-- A method is one transaction: it gets the database and the time of the transaction, and returns
-- its result and the new database, or an error, which rolls the transaction back.
-- Times and durations are natural numbers of microseconds.
pub mod Samples
pub mod Session
pub mod Trail
pub mod Binding
pub mod Tool
pub mod Publish
pub mod Queue
use lit_trace.Base.{
  ℕ, String, ◌≡◌, refl, Bool, true, false, Option, none, some, List, [], ◌&&◌, ◌==◌, nat_eq,
}
use lit_trace.Json.{Fields}

pub data SessionStatus : Type 0 where
  draft idle active system_error archived : SessionStatus

pub record SessionRow : Type 0 where
  pub session_id : String
  pub workspace_sha256 : Option String
  pub workspace_json : Fields
  pub manifest_json : Fields
  pub artifact_index_json : Fields
  pub memory_view_json : Fields
  pub rag_profile_json : Fields
  pub revision : ℕ
  pub status : SessionStatus
  pub created_at : ℕ
  pub updated_at : ℕ

pub record SnapshotRow : Type 0 where
  pub session_id : String
  pub revision : ℕ
  pub workspace_sha256 : Option String
  pub workspace_json : Fields
  pub captured_at : ℕ

pub record BindingRow : Type 0 where
  pub session_id : String
  pub codex_thread_id : String
  pub runtime_kind : String
  pub runtime_version : Option String
  pub workspace_revision : ℕ
  pub status : String
  pub last_error : Option String
  pub turn_count : ℕ
  pub last_total_tokens : ℕ
  pub last_compacted_at : Option ℕ
  pub created_at : ℕ
  pub updated_at : ℕ

pub record ToolCall : Type 0 where
  pub session_id : String
  pub idempotency_key : String
  pub tool_name : String
  pub arguments_sha256 : String
  pub expected_revision : ℕ
  pub committed_revision : ℕ
  pub result_json : Fields
  pub reused : Bool
  pub created_at : ℕ
  pub updated_at : ℕ

pub data TaskStatus : Type 0 where
  queued running completed failed dead : TaskStatus

pub record AsyncTask : Type 0 where
  pub task_id : String
  pub session_id : String
  pub kind : String
  pub artifact_id : String
  pub event_type : String
  pub profile_id : String
  pub source_revision : String
  pub content_sha256 : String
  pub status : TaskStatus
  pub attempt_count : ℕ
  pub next_attempt_at : Option ℕ
  pub last_heartbeat_at : Option ℕ
  pub lease_owner : Option String
  pub lease_expires_at : Option ℕ
  pub last_error : Option String
  pub result_json : Fields
  pub created_at : ℕ
  pub updated_at : ℕ
  pub completed_at : Option ℕ

pub record TrailRow : Type 0 where
  pub session_id : String
  pub messages : List Fields
  pub events : List Fields
  pub updated_at : ℕ

pub record Db : Type 0 where
  pub sessions : List SessionRow
  pub snapshots : List SnapshotRow
  pub bindings : List BindingRow
  pub tool_calls : List ToolCall
  pub trails : List TrailRow
  pub tasks : List AsyncTask

abbrev pub empty_db : Db
empty_db = record {
  sessions = [];
  snapshots = [];
  bindings = [];
  tool_calls = [];
  trails = [];
  tasks = [];
}

-- `ValueError`, `LookupError` and `PermissionError`; the three `RuntimeError`s of the methods; the
-- violations of the constraints that state_db_schema.py declares; a statement whose parameters do
-- not fit its placeholders.
pub data Error : Type 0 where
  value_error type_error lookup_error permission_error archived_session lease_mismatch : Error
  cas_mismatch : (expected got : ℕ) → Error
  unique_violation foreign_key_violation check_violation programming_error : Error

pub data Result {ℓ} (A : Type ℓ) : Type ℓ where
  ok : A → Result A
  err : Error → Result A

-- The rest of a method runs on what the part before it gave.
infixl 5 ◌>>=◌
abbrev pub ◌>>=◌ {κ ℓ} : {B : Type κ} {C : Type ℓ} → Result B → (B → Result C) → Result C
err raised >>= rest = err raised
ok value >>= rest = rest value

-- `if test: raise e`
abbrev pub raise_if : Bool → Error → Result (Unit {0})
raise_if false e = ok tt
raise_if true e = err e

infixl 5 ◌>>◌
abbrev pub ◌>>◌ {ℓ} : {C : Type ℓ} → Result (Unit {0}) → Result C → Result C
check >> rest = check >>= λ _. rest

-- What a successful sequence of two steps did.
pub >>=-eq-ok {κ ℓ} :
    {B : Type κ} {C : Type ℓ} (part : Result B) (rest : B → Result C) {c : C}
    → (part >>= rest) ≡ ok c
    → (value : B) × (part ≡ ok value) × (rest value ≡ ok c)
>>=-eq-ok (err raised) rest h = cc
>>=-eq-ok (ok value) rest h = (value, refl, h)

-- The database after a call: a call that raises leaves it as it was.
abbrev pub after : {A : Type 0} → Db → Result (A × Db) → Db
after db (ok (a, db')) = db'
after db (err e) = db

abbrev pub second : ℕ
second = 1000000

-- `status in ("archived", "systemError")`
unfoldable pub is_frozen : SessionStatus → Bool
is_frozen archived = true
is_frozen system_error = true
is_frozen _ = false

unfoldable pub is_draft : SessionStatus → Bool
is_draft draft = true
is_draft _ = false

unfoldable pub is_archived : SessionStatus → Bool
is_archived archived = true
is_archived _ = false

-- `WHERE session_id = %s`
abbrev pub of_session : String → SessionRow → Bool
of_session id r = r.session_id == id

-- `WHERE session_id = %s AND revision = %s`
abbrev pub at_revision : String → ℕ → SessionRow → Bool
at_revision id n r = (r.session_id == id) && nat_eq r.revision n

abbrev pub trail_of : String → TrailRow → Bool
trail_of id r = r.session_id == id

abbrev pub binding_of : String → BindingRow → Bool
binding_of id r = r.session_id == id

abbrev pub task_of : String → AsyncTask → Bool
task_of id t = t.task_id == id
