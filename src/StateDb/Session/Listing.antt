-- ===== src/StateDb/Session/Listing.antt =====
-- The list of sessions of the sidebar, the archiving of a session, and the history of snapshots.
use lit_trace.Base.{
  ℕ, ◌≤◌, String, ◌≡◌, refl, Bool, false, not, some, List, [], ◌∷◌, ◌&&◌, ◌==◌, arith, find, update,
  select, length, length-map, length-take, take, leb, eq_refl, ap,
}
use lit_trace.Base.Table.{find-ensure, or_row}
use lit_trace.Json.{jsonb}
use lit_trace.Base.All.{All, All-take, All-sort_by, All-map, All-update, All-mono, All-select_if}
use lit_trace.Base.Sort.{sort_by}
use lit_trace.StateDb.{SessionRow, SnapshotRow, archived, Db, is_archived}
use lit_trace.StateDb.Session.{
  summary, list_session_states, archive_session_state, snapshot_of, upsert_session_snapshot,
}

abbrev open_rows : List SessionRow → List SessionRow
open_rows rs =
    sort_by (λ a b. leb b.updated_at a.updated_at) (select (λ r. not (is_archived r.status)) rs)

-- A property of the rows that are not archived is one of what is listed.
listed :
    (P : SessionRow → Type 0) (limit : ℕ) (db : Db)
    → All (λ r. is_archived r.status ≡ false → P r) db.sessions
    → All P (take limit (open_rows db.sessions))
listed P limit db h = All-take P limit _ (
    All-sort_by P _ _ (
      All-select_if P (λ r. not (is_archived r.status)) db.sessions
        (All-mono (λ r. is_archived r.status ≡ false → P r) _ db.sessions
          (λ r k e. k (ground arith)) h)))

everywhere : (P : SessionRow → Type 0) (rs : List SessionRow) → ((r : SessionRow) → P r) → All P rs
everywhere P [] h = tt
everywhere P (r ∷ rs) h = (h r, everywhere P rs h)

-- The list of sessions shows no archived one, and at most as many as were asked for.
pub list_session_states_open :
    (limit : ℕ) (db : Db)
    → All (λ s. is_archived s.status ≡ false) (list_session_states limit db)
      × (length (list_session_states limit db) ≤ limit)
unfolding list_session_states
list_session_states_open limit db = (
  All-map (λ s. is_archived s.status ≡ false) summary _
      (listed (λ r. is_archived r.status ≡ false) limit db
        (everywhere (λ r. is_archived r.status ≡ false → is_archived r.status ≡ false) db.sessions
          (λ r e. e))),
  omega (
    arith,
    length-map (take limit (open_rows db.sessions)) summary,
    length-take limit (open_rows db.sessions),
  ),
)

abbrev open_row : String → SessionRow → Bool
open_row id r = (r.session_id == id) && not (is_archived r.status)

abbrev archive_row : ℕ → SessionRow → SessionRow
archive_row now r = record r { status = archived; updated_at = now }

archived_closed : (now : ℕ) (r : SessionRow) → is_archived (archive_row now r).status ≡ false → ⊥
unfolding is_archived
archived_closed now r h = cc

no_open_row :
    (id : String) (now : ℕ) (rs : List SessionRow)
    → select (open_row id) (update (open_row id) (archive_row now) rs) ≡ []
unfolding select update is_archived
no_open_row id now [] = refl
no_open_row id now (r ∷ rs) = ground (arith, no_open_row id now rs)

others_open :
    (id : String) (now : ℕ) (rs : List SessionRow)
    → All
        (λ r. is_archived r.status ≡ false → (r.session_id == id) ≡ false)
        (update (open_row id) (archive_row now) rs)
others_open id now rs =
    All-update (λ r. is_archived r.status ≡ false → (r.session_id == id) ≡ false) (open_row id)
      (archive_row now) rs (λ r e k. absurd (archived_closed now r k)) (λ r e k. ground arith)

-- An archived session is in no list of sessions, of any length; archiving it again changes no row.
archive_hides :
    (id : String) (limit now later : ℕ) (db : Db)
    → All
        (λ s. (s.session_id == id) ≡ false)
        (list_session_states limit (archive_session_state id now db).1)
      × ((archive_session_state id later (archive_session_state id now db).1).0 ≡ 0)
unfolding list_session_states archive_session_state
archive_hides id limit now later db = (
  All-map (λ s. (s.session_id == id) ≡ false) summary _
      (listed (λ r. (r.session_id == id) ≡ false) limit (archive_session_state id now db).1
        (others_open id now db.sessions)),
  ap length (no_open_row id now db.sessions),
)

-- A snapshot is written once: where one is there for its session and revision it stays, and otherwise
-- the new one is what is found for them afterwards.
pub snapshot_once :
    (snap : SnapshotRow) (db : Db)
    → find (snapshot_of snap.session_id snap.revision) (upsert_session_snapshot snap db).snapshots
      ≡ some (
          or_row
            (find (snapshot_of snap.session_id snap.revision) db.snapshots)
            (record snap { workspace_json = jsonb snap.workspace_json }))
unfolding upsert_session_snapshot
snapshot_once snap db =
    find-ensure (snapshot_of snap.session_id snap.revision)
      (record snap { workspace_json = jsonb snap.workspace_json }) db.snapshots
      (ground (arith, eq_refl snap.session_id))
