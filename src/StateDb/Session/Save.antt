-- ===== src/StateDb/Session/Save.antt =====
-- Saving a workspace: the compare-and-set on the revision of the session.
use lit_trace.Base.{
  ℕ, ◌+◌, String, ◌≡◌, ◌≢◌, refl, true, false, some, List, [], ◌∷◌, arith, find, exists, update, ap,
  ◌∙◌,
}
use lit_trace.StateDb.{
  SessionRow, active, archived, Db, ok, err, cas_mismatch, archived_session, of_session,
  at_revision, is_archived, is_draft, is_frozen, after,
}
use lit_trace.StateDb.Session.{
  overwrite, synced, cas_fallback, get_session_state, upsert_session_state,
  assert_workspace_revision, save_workspace,
}

-- Every session has one row: `session_id` is the primary key.
abbrev pub HasOneRow : String → List SessionRow → Type 0
HasOneRow id [] = Unit
HasOneRow id (r ∷ rs) =
    (of_session id r ≡ true → exists (of_session id) rs ≡ false) × HasOneRow id rs

absent-at_revision :
    (id : String) (n : ℕ) (rs : List SessionRow)
    → exists (of_session id) rs ≡ false
    → exists (at_revision id n) rs ≡ false
unfolding exists
absent-at_revision id n [] h = refl
absent-at_revision id n (x ∷ rs) h = ground (arith, absent-at_revision id n rs)

-- Where the row is at the expected revision, the `UPDATE` meets it, and it alone.
module _ (id : String) (n now : ℕ) (state : SessionRow) where
  update-at_revision :
      (rs : List SessionRow) (r : SessionRow)
      → HasOneRow id rs
      → find (of_session id) rs ≡ some r
      → r.revision ≡ n
      → (exists (at_revision id n) rs ≡ true)
        × (find (of_session id) (update (at_revision id n) (overwrite state now) rs)
            ≡ some (overwrite state now r))
  unfolding find exists update
  update-at_revision [] r u h v = cc
  update-at_revision (x ∷ rs) r u h v = ground (arith, update-at_revision rs r u.1)

  -- Where it is at another revision, the `UPDATE` meets nothing.
  missed-at_revision :
      (rs : List SessionRow) (r : SessionRow)
      → HasOneRow id rs
      → find (of_session id) rs ≡ some r
      → r.revision ≢ n
      → exists (at_revision id n) rs ≡ false
  unfolding find exists
  missed-at_revision [] r u h v = cc
  missed-at_revision (x ∷ rs) r u h v =
      ground (arith, missed-at_revision rs r u.1, absent-at_revision id n rs)

-- Where the session has its row, at the expected revision, the compare-and-set overwrites it.
module _ (state : SessionRow) (n now : ℕ) (db : Db) (r : SessionRow)
    (u : HasOneRow state.session_id db.sessions)
    (h : find (of_session state.session_id) db.sessions ≡ some r) where
  upsert_hit :
      r.revision ≡ n
      → find
          (of_session state.session_id)
          (after db (upsert_session_state state (some n) now db)).sessions
        ≡ some (overwrite state now r)
  unfolding upsert_session_state
  upsert_hit v =
      let (hit, found) = update-at_revision state.session_id n now state db.sessions r u h v in
      rw hit found

  upsert_missed :
      r.revision ≢ n
      → upsert_session_state state (some n) now db ≡ cas_fallback state n now db (some r)
  unfolding upsert_session_state get_session_state
  upsert_missed v = rw (missed-at_revision state.session_id n now state db.sessions r u h v, h)

-- The check of session.py on a row that is neither a placeholder nor archived.
assert_ok :
    (r : SessionRow) (n : ℕ)
    → is_archived r.status ≡ false
    → r.revision ≡ n
    → assert_workspace_revision (some r) n ≡ ok tt
unfolding assert_workspace_revision
assert_ok r n a v = ground arith

assert_stale :
    (r : SessionRow) (n : ℕ)
    → r.status ≡ active
    → r.revision ≢ n
    → assert_workspace_revision (some r) n ≡ err (cas_mismatch n r.revision)
unfolding assert_workspace_revision is_archived is_draft
assert_stale r n a v = ground arith

module _ (state : SessionRow) (n now : ℕ) (db : Db) (r : SessionRow)
    (u : HasOneRow state.session_id db.sessions)
    (h : find (of_session state.session_id) db.sessions ≡ some r) (a : is_archived r.status ≡ false)
    (v : r.revision ≡ n) where
  save_upserts :
      save_workspace state n now db ≡ upsert_session_state (synced state n) (some n) now db
  unfolding save_workspace get_session_state
  save_upserts = rw (h, assert_ok r n a v)

  -- A save at the revision that the session is at, where the session has one row and is not
  -- archived, succeeds: the session is then active, at the next revision, with what was saved.
  save_advances :
      find (of_session state.session_id) (after db (save_workspace state n now db)).sessions
      ≡ some (overwrite (synced state n) now r)
  save_advances = rw save_upserts (upsert_hit (synced state n) n now db r u h v)

-- Of two saves that expect the revision that a session is at, where the session has one row and is
-- not archived, the second one is refused, and told the revision that the first one made.
pub save_race :
    (state state' : SessionRow) (n now later : ℕ) (db : Db) (r : SessionRow)
    → HasOneRow state.session_id db.sessions
    → find (of_session state.session_id) db.sessions ≡ some r
    → is_archived r.status ≡ false
    → r.revision ≡ n
    → state'.session_id ≡ state.session_id
    → save_workspace state' n later (after db (save_workspace state n now db))
      ≡ err (cas_mismatch n (n + 1))
unfolding save_workspace get_session_state
save_race state state' n now later db r u h a v same =
    let found : find (of_session state'.session_id)
          (after db (save_workspace state n now db)).sessions
        ≡ some (overwrite (synced state n) now r) =
      ap (λ i. find (of_session i) (after db (save_workspace state n now db)).sessions) same
      ∙ save_advances state n now db r u h a v in
    rw (found, assert_stale (overwrite (synced state n) now r) n refl (omega arith))

-- An archived session is read-only for saves: whatever revision is expected, the save is refused.
save_archived :
    (state : SessionRow) (n now : ℕ) (db : Db) (r : SessionRow)
    → find (of_session state.session_id) db.sessions ≡ some r
    → r.status ≡ archived
    → save_workspace state n now db ≡ err archived_session
unfolding save_workspace get_session_state assert_workspace_revision is_archived
save_archived state n now db r h a = rw h (ground arith)

-- The compare-and-set by itself does not protect a frozen session: the one row of a session,
-- archived or in systemError and at the expected revision, gets the status and the revision of the
-- new record.
upsert_frozen_overwritten :
    (state : SessionRow) (n now : ℕ) (db : Db) (r : SessionRow)
    → HasOneRow state.session_id db.sessions
    → find (of_session state.session_id) db.sessions ≡ some r
    → is_frozen r.status ≡ true
    → r.revision ≡ n
    → (r' : SessionRow) × (find
          (of_session state.session_id)
          (after db (upsert_session_state state (some n) now db)).sessions
        ≡ some r')
      × (r'.status ≡ state.status)
      × (r'.revision ≡ state.revision)
upsert_frozen_overwritten state n now db r u h f v =
    (overwrite state now r, upsert_hit state n now db r u h v, refl, refl)
