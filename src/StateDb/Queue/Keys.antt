-- ===== src/StateDb/Queue/Keys.antt =====
-- The two unique indices of `async_tasks`, and that an update which keeps the columns of both, and the
-- insertion of a fresh row, keep them: `task_id`, and the idempotency key
-- `(session_id, artifact_id, kind, content_sha256)`.
use lit_trace.Base.{
  ℕ, String, ◌≡◌, refl, Bool, false, List, [], ◌∷◌, ◌++◌, ◌==◌, arith, eq_iff, exists, update,
  if◌then◌else◌,
}
use lit_trace.Base.All.{All, All-append, All-mono}
use lit_trace.StateDb.{AsyncTask, task_of}
use lit_trace.StateDb.Queue.{same_work, refresh, grant, set_outcome}
use lit_trace.StateDb.Queue.Operator.{revive}

-- No row has the identifier of the task, or its idempotency key.
pub record IsFresh (t : AsyncTask) (u : AsyncTask) : Type 0 where
  pub other_id : (u.task_id == t.task_id) ≡ false
  pub other_work : same_work t u ≡ false

abbrev pub IsKeyed : List AsyncTask → Type 0
IsKeyed [] = Unit
IsKeyed (t ∷ ts) = All (IsFresh t) ts × IsKeyed ts

-- An update that keeps both keys of every row keeps the indices.
pub record KeepsKeys (f : AsyncTask → AsyncTask) : Type 0 where
  pub task_id : (t : AsyncTask) → (f t).task_id ≡ t.task_id
  pub session_id : (t : AsyncTask) → (f t).session_id ≡ t.session_id
  pub artifact_id : (t : AsyncTask) → (f t).artifact_id ≡ t.artifact_id
  pub kind : (t : AsyncTask) → (f t).kind ≡ t.kind
  pub content_sha256 : (t : AsyncTask) → (f t).content_sha256 ≡ t.content_sha256

module _ (p : AsyncTask → Bool) (f : AsyncTask → AsyncTask) (k : KeepsKeys f) where
  IsFresh-update_right : (t u : AsyncTask) → IsFresh t u → IsFresh t (if p u then f u else u)
  IsFresh-update_right t u h = record {
    other_id = ground (arith, k.task_id u);
    other_work = ground (arith, k.session_id u, k.artifact_id u, k.kind u, k.content_sha256 u);
  }

  IsFresh-update_left : (t u : AsyncTask) → IsFresh t u → IsFresh (if p t then f t else t) u
  IsFresh-update_left t u h = record {
    other_id = ground (arith, k.task_id t);
    other_work = ground (arith, k.session_id t, k.artifact_id t, k.kind t, k.content_sha256 t);
  }

  All-IsFresh-update :
      (t : AsyncTask) (ts : List AsyncTask)
      → All (IsFresh t) ts
      → All (IsFresh (if p t then f t else t)) (update p f ts)
  unfolding update
  All-IsFresh-update t [] h = tt
  All-IsFresh-update t (u ∷ ts) h = (
    IsFresh-update_left t (if p u then f u else u) (IsFresh-update_right t u h.0),
    All-IsFresh-update t ts h.1,
  )

  pub IsKeyed-update : (ts : List AsyncTask) → IsKeyed ts → IsKeyed (update p f ts)
  unfolding update
  IsKeyed-update [] h = tt
  IsKeyed-update (t ∷ ts) h = (All-IsFresh-update t ts h.0, IsKeyed-update ts h.1)

pub refresh-KeepsKeys : (t : AsyncTask) (now : ℕ) → KeepsKeys (refresh t now)
refresh-KeepsKeys t now = record {
  task_id = λ u. refl;
  session_id = λ u. refl;
  artifact_id = λ u. refl;
  kind = λ u. refl;
  content_sha256 = λ u. refl;
}

pub grant-KeepsKeys : (worker : String) (now lease : ℕ) → KeepsKeys (grant worker now lease)
grant-KeepsKeys worker now lease = record {
  task_id = λ u. refl;
  session_id = λ u. refl;
  artifact_id = λ u. refl;
  kind = λ u. refl;
  content_sha256 = λ u. refl;
}

pub set_outcome-KeepsKeys : (t : AsyncTask) (now : ℕ) → KeepsKeys (set_outcome t now)
set_outcome-KeepsKeys t now = record {
  task_id = λ u. refl;
  session_id = λ u. refl;
  artifact_id = λ u. refl;
  kind = λ u. refl;
  content_sha256 = λ u. refl;
}

pub revive-KeepsKeys : (now : ℕ) → KeepsKeys (revive now)
revive-KeepsKeys now = record {
  task_id = λ u. refl;
  session_id = λ u. refl;
  artifact_id = λ u. refl;
  kind = λ u. refl;
  content_sha256 = λ u. refl;
}

pub IsFresh-All :
    (t : AsyncTask) (ts : List AsyncTask)
    → exists (same_work t) ts ≡ false
    → exists (task_of t.task_id) ts ≡ false
    → All (λ u. IsFresh u t) ts
unfolding exists
IsFresh-All t [] h k = tt
IsFresh-All t (u ∷ ts) h k = (
  record {
    other_id = ground (arith, eq_iff t.task_id u.task_id, eq_iff u.task_id t.task_id);
    other_work = ground (
      arith,
      eq_iff t.session_id u.session_id,
      eq_iff u.session_id t.session_id,
      eq_iff t.artifact_id u.artifact_id,
      eq_iff u.artifact_id t.artifact_id,
      eq_iff t.kind u.kind,
      eq_iff u.kind t.kind,
      eq_iff t.content_sha256 u.content_sha256,
      eq_iff u.content_sha256 t.content_sha256,
    );
  },
  IsFresh-All t ts (ground arith) (ground arith),
)

IsKeyed-append_row :
    (ts : List AsyncTask) (t : AsyncTask)
    → IsKeyed ts
    → All (λ u. IsFresh u t) ts
    → IsKeyed (ts ++ t ∷ [])
IsKeyed-append_row [] t h k = (tt, tt)
IsKeyed-append_row (u ∷ ts) t h k =
    (All-append (IsFresh u) ts (t ∷ []) h.0 (k.0, tt), IsKeyed-append_row ts t h.1 k.1)

-- A row that is inserted when neither key is taken.
pub IsKeyed-append :
    (t row : AsyncTask) (ts : List AsyncTask)
    → (row.task_id ≡ t.task_id)
    → ((u : AsyncTask) → same_work u row ≡ same_work u t)
    → exists (same_work t) ts ≡ false
    → exists (task_of t.task_id) ts ≡ false
    → IsKeyed ts
    → IsKeyed (ts ++ row ∷ [])
IsKeyed-append t row ts id work e i h = IsKeyed-append_row ts row h (
    All-mono (λ u. IsFresh u t) _ ts
      (λ u k. record {
        other_id = ground (arith, id, k.other_id);
        other_work = ground (arith, work u, k.other_work);
      })
      (IsFresh-All t ts e i))
