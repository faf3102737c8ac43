-- ===== src/StateDb/Queue/Claim.antt =====
-- What a claim does: leases, and who can hold one.
use lit_trace.Base.{
  ℕ, ◌+◌, ◌≤◌, ◌<◌, String, ◌≡◌, refl, Bool, true, false, not, some, List, [], ◌∷◌, ◌&&◌, map, ◌==◌,
  arith, eq_iff, select, Bool-cases, inl, inr,
}
use lit_trace.Base.All.{
  All, All-take, All-sort_by, All-select, All-select_if, All-select_update, All-update, All-map,
  All-mono,
}
use lit_trace.StateDb.{AsyncTask, running, Db}
use lit_trace.StateDb.Queue.{
  is_claimable, member, passes, Filter, claim_ids, grant, any_of, claim_pending_async_tasks,
}

-- The identifiers that a claim selects are those of claimable tasks.
module _ (P : String → Type 0) (f : Filter) (limit now : ℕ) (locked : String → Bool)
    (tasks : List AsyncTask) (good : All (λ t. is_claimable now t ≡ true → P t.task_id) tasks) where
  eligible :
      All
        (λ t. P t.task_id)
        (select (λ t. is_claimable now t && (passes f t && not (locked t.task_id))) tasks)
  eligible =
      All-select_if (λ t. P t.task_id)
        (λ t. is_claimable now t && (passes f t && not (locked t.task_id))) tasks
        (All-mono (λ t. is_claimable now t ≡ true → P t.task_id) _ tasks (λ t k e. k (ground arith))
          good)

  pub claim_ids-All : All P (claim_ids f limit now locked tasks)
  unfolding claim_ids
  claim_ids-All =
      All-map P (λ t. t.task_id) _
        (All-take (λ t. P t.task_id) limit _ (All-sort_by (λ t. P t.task_id) _ _ eligible))

pub not_member :
    (s : String) (ids : List String) → All (λ i. (i == s) ≡ false) ids → member s ids ≡ false
unfolding member
not_member s [] h = refl
not_member s (i ∷ ids) h = ground (arith, not_member s ids h.1)

-- A member of the second list is none of the first, if no element of the second is.
member_apart :
    (s : String) (ids ids' : List String)
    → All (λ i. member i ids ≡ false) ids'
    → member s ids' ≡ true
    → member s ids ≡ false
unfolding member
member_apart s ids [] h m = ground arith
member_apart s ids (i ∷ ids') h m = ground (arith, eq_iff i s, member_apart s ids ids' h.1)

abbrev pub identifiers : List AsyncTask → List String
identifiers ts = map (λ t. t.task_id) ts

not_member-select :
    (s : String) (ids : List String) (ts : List AsyncTask)
    → member s ids ≡ false
    → member s (identifiers (select (any_of ids) ts)) ≡ false
unfolding select member
not_member-select s ids [] h = refl
not_member-select s ids (t ∷ ts) h = elim (Bool-cases (member t.task_id ids)) [
  | inl e ↦ ground (arith, eq_iff t.task_id s, not_member-select s ids ts h)
  | inr e ↦ ground (arith, not_member-select s ids ts h)
]

-- A claim that follows before the leases of a first one run out.
module _ (worker worker' : String) (f f' : Filter) (limit limit' lease lease' now now' : ℕ)
    (locked locked' : String → Bool) (db : Db) where
  abbrev first : List AsyncTask × Db
  first = claim_pending_async_tasks worker f limit lease now locked db

  abbrev second : List AsyncTask × Db
  second = claim_pending_async_tasks worker' f' limit' lease' now' locked' first.1

  abbrev first_ids : List String
  first_ids = claim_ids f limit now locked db.tasks

  granted_not_claimable :
      now' < now + lease → (t : AsyncTask) → is_claimable now' (grant worker now lease t) ≡ false
  unfolding is_claimable
  granted_not_claimable h t = ground arith

  second_ids-apart :
      now' < now + lease
      → All (λ i. member i first_ids ≡ false) (claim_ids f' limit' now' locked' first.1.tasks)
  unfolding claim_pending_async_tasks
  second_ids-apart h =
      claim_ids-All (λ i. member i first_ids ≡ false) f' limit' now' locked' first.1.tasks
        (All-update _ (any_of first_ids) (grant worker now lease) db.tasks
          (λ t p c. ground (arith, granted_not_claimable h t)) (λ t p c. p))

  -- Two claims never give the same task to two workers: while the leases of the first claim have not run
  -- out, a second one, of any worker with any filter, returns no task that the first one returned.
  pub claim_exclusive :
      now' < now + lease → All (λ t. member t.task_id (identifiers first.0) ≡ false) second.0
  unfolding claim_pending_async_tasks
  claim_exclusive h =
      All-select (λ t. member t.task_id (identifiers first.0) ≡ false)
        (any_of (claim_ids f' limit' now' locked' first.1.tasks)) _
        (λ t m.
          not_member-select t.task_id first_ids _
            (member_apart t.task_id first_ids _ (second_ids-apart h) m))

-- A task as a claim returns it.
pub record IsGranted (worker : String) (now lease : ℕ) (t : AsyncTask) : Type 0 where
  pub runs : t.status ≡ running
  pub owner : t.lease_owner ≡ some worker
  pub expiry : t.lease_expires_at ≡ some (now + lease)
  pub beat : t.last_heartbeat_at ≡ some now
  pub attempted : 1 ≤ t.attempt_count

-- Every task that a claim returns is running, is leased to the worker from now on for the time that it
-- asked for, and has counted an attempt.
pub claim-IsGranted :
    (worker : String) (f : Filter) (limit lease now : ℕ) (locked : String → Bool) (db : Db)
    → All
        (IsGranted worker now lease)
        (claim_pending_async_tasks worker f limit lease now locked db).0
unfolding claim_pending_async_tasks
claim-IsGranted worker f limit lease now locked db =
    All-select_update (IsGranted worker now lease) (any_of (claim_ids f limit now locked db.tasks))
      (grant worker now lease) db.tasks
      (λ t e. record {
        runs = refl;
        owner = refl;
        expiry = refl;
        beat = refl;
        attempted = omega arith;
      })
      (λ t. refl)
