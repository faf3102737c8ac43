-- ===== src/StateDb/Queue/Eligible.antt =====
-- Which tasks a claim leaves alone, and that it takes one where it can.
use lit_trace.Base.{
  ℕ, suc, ◌≤◌, String, ◌≡◌, refl, Bool, true, false, not, some, List, [], ◌∷◌, ◌&&◌, ◌==◌, arith,
  eq_iff, eq_refl, take, leb, find, exists, select, length, length-map, length-take, Bool-cases,
  inl, inr,
}
use lit_trace.Base.Table.{find-update_ne, exists-update}
use lit_trace.Base.All.{All, All-mono}
use lit_trace.Base.Sort.{sort_by, insert_by}
use lit_trace.StateDb.{AsyncTask, Db, task_of}
use lit_trace.StateDb.Queue.{
  is_claimable, member, passes, Filter, claim_ids, grant, any_of, claim_pending_async_tasks,
}
use lit_trace.StateDb.Queue.Keys.{IsKeyed, IsFresh}
use lit_trace.StateDb.Queue.Claim.{claim_ids-All, not_member}

-- In a keyed table no other row has the identifier of the row that is found.
module _ (now : ℕ) (id : String) where
  abbrev Other : AsyncTask → Type 0
  Other u = is_claimable now u ≡ true → (u.task_id == id) ≡ false

  later_rows :
      (t : AsyncTask) (ts : List AsyncTask)
      → All (IsFresh t) ts
      → (t.task_id == id) ≡ true
      → All Other ts
  later_rows t ts h e =
      All-mono (IsFresh t) Other ts
        (λ u k c.
          ground (
            arith,
            k.other_id,
            eq_iff t.task_id id,
            eq_iff u.task_id id,
            eq_iff u.task_id t.task_id,
          ))
        h

  rows_apart :
      (t : AsyncTask) (ts : List AsyncTask)
      → IsKeyed ts
      → find (task_of id) ts ≡ some t
      → is_claimable now t ≡ false
      → All Other ts
  unfolding find
  rows_apart t [] h e c = tt
  rows_apart t (u ∷ ts) h e c = elim (Bool-cases (u.task_id == id)) [
    | inl hit ↦ (λ k. ground (arith, hit, e, c, k), later_rows u ts h.0 hit)
    | inr miss ↦ (λ k. miss, rows_apart t ts h.1 (ground (arith, miss, e)) c)
  ]

module _ (worker : String) (f : Filter) (limit lease now : ℕ) (locked : String → Bool)
    (db : Db) where
  abbrev claimed : List AsyncTask × Db
  claimed = claim_pending_async_tasks worker f limit lease now locked db

  abbrev ids : List String
  ids = claim_ids f limit now locked db.tasks

  -- In a queue where both indices are unique a task that is not claimable (completed or dead, failed with
  -- no retry that is due, or running under a lease that has not run out) is left as it is by a claim, of any
  -- worker with any filter and limit.
  pub claim_untouched :
      (id : String) (t : AsyncTask)
      → IsKeyed db.tasks
      → find (task_of id) db.tasks ≡ some t
      → is_claimable now t ≡ false
      → find (task_of id) claimed.1.tasks ≡ some t
  unfolding claim_pending_async_tasks
  claim_untouched id t h e c =
      let apart = not_member id ids (
        claim_ids-All (λ i. (i == id) ≡ false) f limit now locked db.tasks
          (rows_apart now id t db.tasks h e c)) in
      rw
        (find-update_ne (task_of id) (any_of ids) (grant worker now lease) db.tasks (λ r m.
          let miss : (r.task_id == id) ≡ false = ground (arith, eq_iff r.task_id id, apart) in
          (miss, miss)))
        e

length-insert_by :
    {A : Type 0} (before : A → A → Bool) (a : A) (xs : List A)
    → length (insert_by before a xs) ≡ suc (length xs)
unfolding insert_by
length-insert_by before a [] = refl
length-insert_by before a (x ∷ xs) = ground (arith, length-insert_by before a xs)

length-sort_by :
    {A : Type 0} (before : A → A → Bool) (xs : List A) → length (sort_by before xs) ≡ length xs
unfolding sort_by
length-sort_by before [] = refl
length-sort_by before (x ∷ xs) =
    omega (arith, length-insert_by before x (sort_by before xs), length-sort_by before xs)

exists-length-select :
    {A : Type 0} (p : A → Bool) (xs : List A) → exists p xs ≡ true → 1 ≤ length (select p xs)
unfolding exists select
exists-length-select p [] h = ground arith
exists-length-select p (x ∷ xs) h = ground (arith, exists-length-select p xs)

pub exists_self : (ts : List AsyncTask) → All (λ t. exists (task_of t.task_id) ts ≡ true) ts
unfolding exists
exists_self [] = tt
exists_self (t ∷ ts) = (
  ground (arith, eq_refl t.task_id),
  All-mono (λ u. exists (task_of u.task_id) ts ≡ true) _ ts (λ u k. ground arith) (exists_self ts),
)

exists-any_of :
    (i : String) (ids : List String) (ts : List AsyncTask)
    → exists (task_of i) ts ≡ true
    → exists (any_of (i ∷ ids)) ts ≡ true
unfolding exists member
exists-any_of i ids [] h = h
exists-any_of i ids (t ∷ ts) h =
    ground (arith, eq_iff t.task_id i, eq_iff i t.task_id, exists-any_of i ids ts)

some_any_of :
    (ids : List String) (ts : List AsyncTask)
    → 1 ≤ length ids
    → All (λ i. exists (task_of i) ts ≡ true) ids
    → exists (any_of ids) ts ≡ true
some_any_of [] ts n h = absurd (omega arith)
some_any_of (i ∷ ids) ts n h = exists-any_of i ids ts h.0

module _ (worker : String) (f : Filter) (limit lease now : ℕ) (locked : String → Bool)
    (db : Db) where
  abbrev eligible : AsyncTask → Bool
  eligible t = is_claimable now t && (passes f t && not (locked t.task_id))

  some_ids :
      exists eligible db.tasks ≡ true
      → 1 ≤ limit
      → 1 ≤ length (claim_ids f limit now locked db.tasks)
  unfolding claim_ids
  some_ids h n =
      let sorted =
        sort_by (λ (a b : AsyncTask). leb a.created_at b.created_at) (select eligible db.tasks) in
      omega (
        arith,
        length-map (take limit sorted) (λ t. t.task_id),
        length-take limit sorted,
        length-sort_by (λ (a b : AsyncTask). leb a.created_at b.created_at)
            (select eligible db.tasks),
        exists-length-select eligible db.tasks h,
      )

  -- A claim of at least one task takes one wherever some task is claimable, passes the filter and is not
  -- locked by another transaction.
  pub claim_progress :
      exists eligible db.tasks ≡ true
      → 1 ≤ limit
      → 1 ≤ length (claim_pending_async_tasks worker f limit lease now locked db).0
  unfolding claim_pending_async_tasks
  claim_progress h n =
      let ids = claim_ids f limit now locked db.tasks in
      let found = some_any_of ids db.tasks (some_ids h n) (
        claim_ids-All (λ i. exists (task_of i) db.tasks ≡ true) f limit now locked db.tasks
          (All-mono (λ t. exists (task_of t.task_id) db.tasks ≡ true) _ db.tasks (λ t k c. k)
            (exists_self db.tasks))) in
      exists-length-select (any_of ids) _ (
        rw (exists-update (any_of ids) (any_of ids) (grant worker now lease) db.tasks (λ t m. refl))
          found)
