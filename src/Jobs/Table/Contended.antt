-- ===== src/Jobs/Table/Contended.antt =====
-- When the commit of extracted tables gives up.
use lit_trace.Base.{
  ℕ, zero, suc, ◌+◌, String, ◌≡◌, ◌≢◌, refl, inl, inr, Bool, true, false, Option, none, some, List,
  arith, ◌==◌, find, Option-cases, Bool-cases,
}
use lit_trace.Json.{Fields}
use lit_trace.Base.Words.{is_blank}
use lit_trace.StateDb.{
  SessionRow, AsyncTask, Db, Result, ok, err, Error, of_session, task_of, ◌>>=◌, raise_if,
  value_error, lease_mismatch,
}
use lit_trace.StateDb.Session.{get_session_state}
use lit_trace.StateDb.Trail.{update_trail}
use lit_trace.StateDb.Tool.{check_session, write_workspace}
use lit_trace.StateDb.Publish.{
  PublishRequest, check_publish, check_lease, commit_async_workspace_result,
}
use lit_trace.Jobs.Table.{
  TableExecutionOutput, TableLibrary, table_request, MergeOutcome, raised, lost_lease, exhausted,
  is_cas_mismatch, after_commit, attempt, merge_loop, commit_owned, commit_table_output,
}

abbrev cas_of {ℓ} : {A : Type ℓ} → Result A → Bool
cas_of (ok a) = false
cas_of (err e) = is_cas_mismatch e

-- A chain of steps that ends in a mismatch of revisions does so in its first step, or after it.
cas_of->>= :
    {A B : Type 0} (r : Result A) (f : A → Result B)
    → cas_of r ≡ false
    → cas_of (r >>= f) ≡ true
    → (a : A) × (r ≡ ok a) × (cas_of (f a) ≡ true)
cas_of->>= (ok a) f h k = (a, refl, k)
cas_of->>= (err e) f h k = absurd (ground arith)

raise_if_cas : (t : Bool) (e : Error) → is_cas_mismatch e ≡ false → cas_of (raise_if t e) ≡ false
raise_if_cas true e h = h
raise_if_cas false e h = refl

cas_of-check_publish : (q : PublishRequest) → cas_of (check_publish q) ≡ false
unfolding check_publish
cas_of-check_publish q = elim (Bool-cases (is_blank q.lease_owner)) [
  | inl blank ↦ rw (check_publish, blank) refl
  | inr named ↦ rw (check_publish, named) (raise_if_cas _ value_error refl)
]

cas_of-check_lease : (q : PublishRequest) (o : Option AsyncTask) → cas_of (check_lease q o) ≡ false
unfolding check_lease
cas_of-check_lease q none = refl
cas_of-check_lease q (some t) = elim (Bool-cases (t.session_id == q.session_id)) [
  | inl same ↦ rw same (raise_if_cas _ lease_mismatch refl)
  | inr other ↦ rw other refl
]

cas_of-check_session :
    (o : Option SessionRow) (n : ℕ)
    → cas_of (check_session o n) ≡ true
    → (row : SessionRow) × (o ≡ some row) × (row.revision ≢ n)
unfolding check_session
cas_of-check_session none n h = absurd (ground arith)
cas_of-check_session (some row) n h = (row, refl, λ e. ground (arith, e, h))

cas_of-write_workspace :
    (id : String) (w : Fields) (sha : String) (revision : ℕ) (event : Fields) (now : ℕ) (db : Db)
    → cas_of (write_workspace id w sha revision event now db) ≡ false
unfolding write_workspace update_trail
cas_of-write_workspace id w sha revision event now db = ground arith

-- A publication fails on a mismatch of revisions only where the session has another revision.
commit_mismatch :
    (q : PublishRequest) (now : ℕ) (db : Db)
    → cas_of (commit_async_workspace_result q now db) ≡ true
    → (row : SessionRow) × (find (of_session q.session_id) db.sessions ≡ some row)
      × (row.revision ≢ q.expected_revision)
unfolding commit_async_workspace_result
commit_mismatch q now db h =
    let found = find (of_session q.session_id) db.sessions in
    let leased = check_lease q (find (task_of q.task_id) db.tasks) in
    let (_, _, h₁) = cas_of->>= (check_publish q) _ (cas_of-check_publish q) h in
    let (_, _, h₂) = cas_of->>= leased _ (cas_of-check_lease q _) h₁ in
    elim (Bool-cases (cas_of (check_session found q.expected_revision))) [
      | inl passed ↦ cas_of-check_session found q.expected_revision passed
      | inr current ↦
          let (_, _, h₃) = cas_of->>= (check_session found q.expected_revision) _ current h₂ in
          let (_, _, h₄) =
            cas_of->>=
              (write_workspace q.session_id q.workspace_json q.workspace_sha256
                (q.expected_revision + 1) q.audit_event now db)
              _ (cas_of-write_workspace _ _ _ _ _ now db) h₃ in
          absurd (let e : false ≡ true = h₄ in ground arith)
    ]

after_commit-exhausted :
    (stale : List String) (db db' : Db) (rest : MergeOutcome × Db)
    (o : Result (Option AsyncTask × Db))
    → after_commit stale db rest o ≡ (exhausted, db')
    → (cas_of o ≡ true) × (rest ≡ (exhausted, db'))
after_commit-exhausted stale db db' rest (ok done) h = absurd (ground arith)
after_commit-exhausted stale db db' rest (err e) h = elim (Bool-cases (is_cas_mismatch e)) [
  | inl cas ↦ (cas, rw cas at h)
  | inr other ↦ absurd (let k : (raised e, db) ≡ (exhausted, db') = rw other at h in ground arith)
]

module _ (lib : TableLibrary) (before between : ℕ → Db → Db) (job : AsyncTask)
    (output : TableExecutionOutput) (ids : List String) (stamp : String) (now : ℕ) where
  -- In every attempt another writer changed the revision of the session between the read and the commit.
  abbrev pub IsContended : (left n : ℕ) → Db → Type 0
  IsContended zero n db = Unit
  IsContended (suc left) n db =
      ((state : SessionRow) × (row : SessionRow) × (find (of_session job.session_id)
            (before n db).sessions
          ≡ some state)
        × (find (of_session job.session_id) (between n (before n db)).sessions ≡ some row)
        × (row.revision ≢ state.revision))
      × IsContended left (n + 1) (between n (before n db))

  attempt-exhausted :
      (owner : String) (read commit db' : Db) (rest : MergeOutcome × Db) (o : Option SessionRow)
      → get_session_state job.session_id read ≡ o
      → attempt lib before between job output ids stamp now owner read commit rest o
        ≡ (exhausted, db')
      → ((state : SessionRow) × (row : SessionRow) × (find (of_session job.session_id) read.sessions
            ≡ some state)
          × (find (of_session job.session_id) commit.sessions ≡ some row)
          × (row.revision ≢ state.revision))
        × (rest ≡ (exhausted, db'))
  unfolding get_session_state
  attempt-exhausted owner read commit db' rest none seen h = absurd (ground arith)
  attempt-exhausted owner read commit db' rest (some state) seen h =
      let (cas, given) = after_commit-exhausted _ commit db' rest _ h in
      let (row, current, other) =
        commit_mismatch (table_request lib job owner output ids stamp state) now commit cas in
      ((state, row, seen, current, other), given)

  merge_loop-IsContended :
      (owner : String) (left n : ℕ) (db db' : Db)
      → merge_loop lib before between job output ids stamp now owner left n db ≡ (exhausted, db')
      → IsContended left n db
  unfolding merge_loop
  merge_loop-IsContended owner zero n db db' h = tt
  merge_loop-IsContended owner (suc left) n db db' h =
      let (contended, given) =
        attempt-exhausted owner (before n db) (between n (before n db)) db' _ _ refl h in
      (contended, merge_loop-IsContended owner left (n + 1) (between n (before n db)) db' given)

  -- The commit of extracted tables gives up only if in each of its five attempts another writer changed
  -- the revision of the session after the attempt had read it and before it committed.
  pub commit_table_output-IsContended :
      (db db' : Db)
      → commit_table_output lib before between job output ids stamp now db ≡ (exhausted, db')
      → IsContended 5 0 db
  unfolding commit_table_output
  commit_table_output-IsContended db db' h = elim (Option-cases job.lease_owner) [
    | inl none_left ↦
        let k : (lost_lease, db) ≡ (exhausted, db') = rw none_left at h in absurd (ground arith)
    | inr (owner, leased) ↦
        let k : commit_owned lib before between job output ids stamp now (some owner) db
            ≡ (exhausted, db') =
          rw leased at h in
        elim (Bool-cases (owner == "")) [
          | inl blank ↦
              let z : (lost_lease, db) ≡ (exhausted, db') = rw blank at k in absurd (ground arith)
          | inr named ↦ merge_loop-IsContended owner 5 0 db db' (rw named at k)
        ]
  ]
