-- ===== src/Base/Table.antt =====
-- A table of a relational store: its rows, in the order of insertion. The operations are those
-- that SQL statements make on the rows that satisfy a `WHERE` test.
use mathlib.Core.Path.{◌≡◌, refl}
use mathlib.Core.Logic.{inl, inr}
use mathlib.Core.Bool.{Bool, true, false}
use mathlib.Core.Option
use mathlib.Core.Option.{Option, none, some}
use mathlib.Core.List.{List, [], ◌∷◌, ◌++◌}
use native.Mathlib.Omega.{arith}
use lit_trace.Base.Tests.{if◌then◌else◌, Option-cases}

module _ {ℓ} {R : Type ℓ} where
  -- The first row that satisfies the test.
  unfoldable pub find : (R → Bool) → List R → Option R
  find p [] = none
  find p (r ∷ rs) = if p r then some r else find p rs

  unfoldable pub exists : (R → Bool) → List R → Bool
  exists p [] = false
  exists p (r ∷ rs) = if p r then true else exists p rs

  unfoldable pub update : (R → Bool) → (R → R) → List R → List R
  update p f [] = []
  update p f (r ∷ rs) = (if p r then f r else r) ∷ update p f rs

  unfoldable pub delete : (R → Bool) → List R → List R
  delete p [] = []
  delete p (r ∷ rs) = let rest = delete p rs in if p r then rest else r ∷ rest

  -- The rows that satisfy the test.
  unfoldable pub select : (R → Bool) → List R → List R
  select p [] = []
  select p (r ∷ rs) = let rest = select p rs in if p r then r ∷ rest else rest

  abbrev pub or_else : Option R → Option R → Option R
  or_else none d = d
  or_else (some r) d = some r

  pub find-append :
      (p : R → Bool) (rs ss : List R) → find p (rs ++ ss) ≡ or_else (find p rs) (find p ss)
  unfolding find
  find-append p [] ss = refl
  find-append p (r ∷ rs) ss = ground (arith, find-append p rs ss)

  pub find-holds : (p : R → Bool) (rs : List R) (r : R) → find p rs ≡ some r → p r ≡ true
  unfolding find
  find-holds p [] r h = ground arith
  find-holds p (x ∷ xs) r h = ground (arith, find-holds p xs r)

  -- An update that keeps a row selected acts on the row that is found.
  pub find-update_self :
      (p : R → Bool) (f : R → R) (rs : List R)
      → ((r : R) → p r ≡ true → p (f r) ≡ true)
      → find p (update p f rs) ≡ Option.map f (find p rs)
  unfolding find update
  find-update_self p f [] h = refl
  find-update_self p f (r ∷ rs) h = ground (arith, h r, find-update_self p f rs h)

  -- An update that keeps a test acts on the row that the test finds, or not at all.
  pub find-update_kept :
      (q p : R → Bool) (f : R → R) (rs : List R) (r : R)
      → ((x : R) → q (f x) ≡ q x)
      → find q rs ≡ some r
      → find q (update p f rs) ≡ some (if p r then f r else r)
  unfolding find update
  find-update_kept q p f [] r k h = ground arith
  find-update_kept q p f (x ∷ xs) r k h = ground (arith, k x, find-update_kept q p f xs r k)

  -- An update of rows that another test rejects, before and after, is not seen by that test.
  pub find-update_ne :
      (q p : R → Bool) (f : R → R) (rs : List R)
      → ((r : R) → p r ≡ true → (q r ≡ false) × (q (f r) ≡ false))
      → find q (update p f rs) ≡ find q rs
  unfolding find update
  find-update_ne q p f [] h = refl
  find-update_ne q p f (r ∷ rs) h = ground (arith, h r, find-update_ne q p f rs h)

  pub exists-find : (p : R → Bool) (rs : List R) (r : R) → find p rs ≡ some r → exists p rs ≡ true
  unfolding find exists
  exists-find p [] r h = ground arith
  exists-find p (x ∷ xs) r h = ground (arith, exists-find p xs r)

  pub find-none-exists : (p : R → Bool) (rs : List R) → exists p rs ≡ false → find p rs ≡ none
  unfolding find exists
  find-none-exists p [] h = refl
  find-none-exists p (x ∷ xs) h = ground (arith, find-none-exists p xs)

  pub exists-update :
      (q p : R → Bool) (f : R → R) (rs : List R)
      → ((r : R) → p r ≡ true → q (f r) ≡ q r)
      → exists q (update p f rs) ≡ exists q rs
  unfolding exists update
  exists-update q p f [] h = refl
  exists-update q p f (r ∷ rs) h = ground (arith, h r, exists-update q p f rs h)

  pub exists-find-none : (p : R → Bool) (rs : List R) → find p rs ≡ none → exists p rs ≡ false
  unfolding find exists
  exists-find-none p [] h = refl
  exists-find-none p (x ∷ xs) h = ground (arith, exists-find-none p xs)

  abbrev pub or_row : Option R → R → R
  or_row none d = d
  or_row (some r) d = r

  -- `INSERT … ON CONFLICT DO NOTHING`: afterwards there is a row, the old one or the new one.
  pub find-ensure :
      (p : R → Bool) (d : R) (rs : List R)
      → p d ≡ true
      → find p (if exists p rs then rs else rs ++ d ∷ []) ≡ some (or_row (find p rs) d)
  find-ensure p d rs h = elim (Option-cases (find p rs)) [
    | inl e ↦ rw (exists-find-none p rs e, find-append p rs (d ∷ []), e) (unfold find in rw h)
    | inr (r, e) ↦ rw (exists-find p rs r e, e)
  ]
