-- ===== src/StateDb/Session.antt =====
-- state_db.py: the L1 methods on `session_state` and on its snapshots.
pub mod Save
pub mod Listing
use lit_trace.Base.{
  ℕ, suc, ◌+◌, String, Bool, not, Option, none, some, List, [], ◌∷◌, ◌++◌, ◌&&◌, ◌==◌, nat_eq, leb,
  if◌then◌else◌, take, map, length,
}
use lit_trace.Base.Table.{find, exists, update, delete, select}
use lit_trace.Base.Sort.{sort_by}
use lit_trace.Json
use lit_trace.Json.{Json, Items, nil, cons, list, str, Fields, jsonb, get, get_in}
use lit_trace.StateDb.{
  SessionRow, SnapshotRow, Db, SessionStatus, active, archived, Result, ok, err, archived_session,
  cas_mismatch, is_frozen, is_draft, is_archived, of_session, at_revision, ◌>>◌,
}

-- `SET …` of both statements of `upsert_session_state`; `created_at` stays.
abbrev pub overwrite : SessionRow → ℕ → SessionRow → SessionRow
overwrite state now r = record r {
  workspace_sha256 = state.workspace_sha256;
  workspace_json = jsonb state.workspace_json;
  manifest_json = jsonb state.manifest_json;
  artifact_index_json = jsonb state.artifact_index_json;
  memory_view_json = jsonb state.memory_view_json;
  rag_profile_json = jsonb state.rag_profile_json;
  revision = state.revision;
  status = state.status;
  updated_at = now;
}

-- The row of an `INSERT`: `COALESCE(%s, now())` takes the record's `created_at`.
abbrev pub inserted : SessionRow → ℕ → SessionRow
inserted state now = overwrite state now state

-- `INSERT … ON CONFLICT (session_id) DO UPDATE`
unfoldable pub insert_or_overwrite : SessionRow → ℕ → Db → Db
insert_or_overwrite state now db =
    let here = of_session state.session_id in
    record db {
      sessions =
          if exists here db.sessions
          then update here (overwrite state now) db.sessions
          else db.sessions ++ inserted state now ∷ [];
    }

-- `RETURNING created_at, updated_at`, put into the record that the caller gave.
abbrev pub returned : SessionRow → ℕ → Option SessionRow → SessionRow
returned state now none = record state { updated_at = now }
returned state now (some r) = record state { created_at = r.created_at; updated_at = now }

-- What follows an `UPDATE` that matched no row, by the row that `get_session_state` reads.
unfoldable pub cas_fallback : SessionRow → ℕ → ℕ → Db → Option SessionRow → Result (SessionRow × Db)
cas_fallback state expected now db none = ok (state, insert_or_overwrite state now db)
cas_fallback state expected now db (some current) =
    if is_frozen current.status
    then err archived_session
    else if nat_eq expected 0 && is_draft current.status
    then ok (state, insert_or_overwrite state now db)
    else err (cas_mismatch expected current.revision)

unfoldable pub get_session_state : String → Db → Option SessionRow
get_session_state id db = find (of_session id) db.sessions

unfoldable pub upsert_session_state : SessionRow → Option ℕ → ℕ → Db → Result (SessionRow × Db)
upsert_session_state state none now db =
    ok
      (returned state now (get_session_state state.session_id db), insert_or_overwrite state now db)
upsert_session_state state (some expected) now db =
    let hit = at_revision state.session_id expected in
    if exists hit db.sessions
    then ok (
      returned state now (find hit db.sessions),
      record db { sessions = update hit (overwrite state now) db.sessions },
    )
    else cas_fallback state expected now db (get_session_state state.session_id db)

-- session.py `_assert_workspace_revision`
unfoldable pub assert_workspace_revision : Option SessionRow → ℕ → Result (Unit {0})
unfolding is_archived is_draft
assert_workspace_revision none expected =
    if nat_eq expected 0 then ok tt else err (cas_mismatch expected 0)
assert_workspace_revision (some r) expected =
    if is_archived r.status
    then err archived_session
    else if is_draft r.status && nat_eq expected 0
    then ok tt
    else if nat_eq r.revision expected
    then ok tt
    else err (cas_mismatch expected r.revision)

-- session.py `_sync_session_state`: the record carries the new revision and the status `active`.
abbrev pub synced : SessionRow → ℕ → SessionRow
synced state expected = record state { revision = expected + 1; status = active }

-- session.py `save_workspace`, under the session's write lock: the check, then the compare-and-set
-- of the record whose revision `_bump_workspace_revision` counted up.
unfoldable pub save_workspace : SessionRow → ℕ → ℕ → Db → Result (SessionRow × Db)
save_workspace state expected now db = do
  assert_workspace_revision (get_session_state state.session_id db) expected
  upsert_session_state (synced state expected) (some expected) now db

-- `SessionSummaryRecord`
pub record Summary : Type 0 where
  pub session_id : String
  pub workspace_sha256 : Option String
  pub topic : Option String
  pub active_paper_count : ℕ
  pub revision : ℕ
  pub status : SessionStatus
  pub updated_at : ℕ

abbrev pub count_items : Items → ℕ
count_items nil = 0
count_items (cons x xs) = suc (count_items xs)

-- `->>` of a value that is a text or absent, and `COALESCE(jsonb_array_length(…), 0)` of a list or absent.
abbrev pub as_text : Option Json → Option String
as_text (some (str s)) = some s
as_text _ = none

abbrev pub array_length : Option Json → ℕ
array_length (some (list xs)) = count_items xs
array_length _ = 0

abbrev pub summary : SessionRow → Summary
summary r =
    let context = get "context" r.workspace_json in
    record {
      session_id = r.session_id;
      workspace_sha256 = r.workspace_sha256;
      topic = as_text (get_in "topic" (get_in "filters" context));
      active_paper_count = array_length (get_in "active_papers" context);
      revision = r.revision;
      status = r.status;
      updated_at = r.updated_at;
    }

-- `WHERE status != 'archived' ORDER BY updated_at DESC LIMIT %s`
unfoldable pub list_session_states : ℕ → Db → List Summary
list_session_states limit db = map summary (
    take limit (
      sort_by (λ a b. leb b.updated_at a.updated_at)
        (select (λ r. not (is_archived r.status)) db.sessions)))

-- The primary key of a snapshot.
abbrev pub snapshot_of : String → ℕ → SnapshotRow → Bool
snapshot_of id n r = (r.session_id == id) && nat_eq r.revision n

-- `INSERT … ON CONFLICT (session_id, revision) DO NOTHING`
unfoldable pub upsert_session_snapshot : SnapshotRow → Db → Db
upsert_session_snapshot snap db = record db {
  snapshots =
      if exists (snapshot_of snap.session_id snap.revision) db.snapshots
      then db.snapshots
      else db.snapshots ++ record snap { workspace_json = jsonb snap.workspace_json } ∷ [];
}

unfoldable pub list_session_snapshots : String → ℕ → Db → List SnapshotRow
list_session_snapshots id limit db = take limit (
    sort_by (λ a b. leb b.captured_at a.captured_at)
      (select (λ r. r.session_id == id) db.snapshots))

-- A record with every other column at its default, as `update_memory_view` makes it.
abbrev pub memory_only : String → Fields → ℕ → SessionRow
memory_only id payload now = record {
  session_id = id;
  workspace_sha256 = none;
  workspace_json = Json.empty;
  manifest_json = Json.empty;
  artifact_index_json = Json.empty;
  memory_view_json = payload;
  rag_profile_json = Json.empty;
  revision = 0;
  status = active;
  created_at = now;
  updated_at = now;
}

unfoldable pub update_memory_view : String → Fields → ℕ → Db → Db
unfolding insert_or_overwrite
update_memory_view id payload now db =
    let here = of_session id in
    if exists here db.sessions
    then record db {
      sessions =
          update here (λ r. record r { memory_view_json = jsonb payload; updated_at = now })
            db.sessions;
    }
    else insert_or_overwrite (memory_only id payload now) now db

-- The rows of four tables go with their session: `ON DELETE CASCADE`. The number is the rowcount.
unfoldable pub delete_session_state : String → Db → ℕ × Db
delete_session_state id db = (
  length (select (of_session id) db.sessions),
  record db {
    sessions = delete (of_session id) db.sessions;
    bindings = delete (λ b. b.session_id == id) db.bindings;
    tool_calls = delete (λ c. c.session_id == id) db.tool_calls;
    trails = delete (λ t. t.session_id == id) db.trails;
  },
)

-- `SET status = 'archived' … WHERE session_id = %s AND status != 'archived'`
unfoldable pub archive_session_state : String → ℕ → Db → ℕ × Db
archive_session_state id now db =
    let here = λ (r : SessionRow). (r.session_id == id) && not (is_archived r.status) in
    (
      length (select here db.sessions),
      record db {
        sessions = update here (λ r. record r { status = archived; updated_at = now }) db.sessions;
      },
    )
