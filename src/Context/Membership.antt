-- ===== src/Context/Membership.antt =====
-- Membership and repetition in the lists of identifiers, under the two operations on them.
use lit_trace.Base.{
  String, ◌≡◌, refl, ap, Bool, true, false, not, List, [], ◌∷◌, ◌++◌, ◌&&◌, ◌||◌, ◌==◌, arith,
  eq_iff, if◌then◌else◌, Bool-cases, inl, inr,
}
use lit_trace.Context.{contains, append_unique, remove}

-- No identifier stands twice.
abbrev pub IsUnique : List String → Type 0
IsUnique [] = Unit
IsUnique (x ∷ xs) = (contains x xs ≡ false) × IsUnique xs

-- No identifier stands in both.
abbrev pub IsApart : List String → List String → Type 0
IsApart xs ys = (s : String) → contains s xs ≡ true → contains s ys ≡ false

pub contains-append :
    (s : String) (xs : List String) (t : String)
    → contains s (xs ++ t ∷ []) ≡ (contains s xs || (t == s))
unfolding contains
contains-append s [] t = ground arith
contains-append s (x ∷ xs) t = ground (arith, contains-append s xs t)

contains-eq : (s t : String) (xs : List String) → (t == s) ≡ true → contains t xs ≡ contains s xs
contains-eq s t xs h = let same = (eq_iff t s).0 h in ground (arith, same)

pub contains-append_unique :
    (s t : String) (xs : List String)
    → contains s (append_unique t xs) ≡ (contains s xs || (t == s))
unfolding append_unique
contains-append_unique s t xs = ground (arith, contains-append s xs t, contains-eq s t xs)

pub IsUnique-append :
    (t : String) (xs : List String) → IsUnique xs → contains t xs ≡ false → IsUnique (xs ++ t ∷ [])
unfolding contains
IsUnique-append t [] h n = (refl, tt)
IsUnique-append t (x ∷ xs) h n = (
  ground (arith, contains-append x xs t, h.0, n, eq_iff x t, eq_iff t x),
  IsUnique-append t xs h.1 (ground (arith, n)),
)

pub IsUnique-append_unique :
    (t : String) (xs : List String) → IsUnique xs → IsUnique (append_unique t xs)
unfolding append_unique
IsUnique-append_unique t xs h = elim (Bool-cases (contains t xs)) [
  | inl there ↦ rw there h
  | inr new ↦ rw new (IsUnique-append t xs h new)
]

pub contains-remove :
    (s t : String) (xs : List String)
    → IsUnique xs
    → contains s (remove t xs) ≡ (contains s xs && not (t == s))
unfolding contains remove
contains-remove s t [] h = refl
contains-remove s t (x ∷ xs) h =
    ground (
      arith,
      contains-remove s t xs h.1,
      h.0,
      contains-eq s x xs,
      eq_iff x t,
      eq_iff t s,
      eq_iff x s,
    )

pub IsUnique-remove : (t : String) (xs : List String) → IsUnique xs → IsUnique (remove t xs)
unfolding remove
IsUnique-remove t [] h = tt
IsUnique-remove t (x ∷ xs) h = elim (Bool-cases (x == t)) [
  | inl here ↦ rw here h.1
  | inr other ↦ rw other (ground (arith, contains-remove x t xs h.1, h.0), IsUnique-remove t xs h.1)
]

-- The loops: each identifier is removed, or is appended where it passes a test.
unfoldable pub remove_all : List String → List String → List String
remove_all [] xs = xs
remove_all (id ∷ ids) xs = remove_all ids (remove id xs)

unfoldable pub append_where : (String → Bool) → List String → List String → List String
append_where p [] xs = xs
append_where p (id ∷ ids) xs = append_where p ids (if p id then append_unique id xs else xs)

pub IsUnique-remove_all : (ids xs : List String) → IsUnique xs → IsUnique (remove_all ids xs)
unfolding remove_all
IsUnique-remove_all [] xs h = h
IsUnique-remove_all (id ∷ ids) xs h =
    IsUnique-remove_all ids (remove id xs) (IsUnique-remove id xs h)

pub contains-remove_all :
    (s : String) (ids xs : List String)
    → IsUnique xs
    → contains s (remove_all ids xs) ≡ (contains s xs && not (contains s ids))
unfolding remove_all contains
contains-remove_all s [] xs h = ground arith
contains-remove_all s (id ∷ ids) xs h = ground (
  arith,
  contains-remove_all s ids (remove id xs) (IsUnique-remove id xs h),
  contains-remove s id xs h,
)

IsUnique-append_if :
    (b : Bool) (id : String) (xs : List String)
    → IsUnique xs
    → IsUnique (if b then append_unique id xs else xs)
IsUnique-append_if true id xs h = IsUnique-append_unique id xs h
IsUnique-append_if false id xs h = h

contains-append_if :
    (s id : String) (b : Bool) (xs : List String)
    → contains s (if b then append_unique id xs else xs) ≡ (contains s xs || ((id == s) && b))
contains-append_if s id true xs = ground (arith, contains-append_unique s id xs)
contains-append_if s id false xs = ground arith

module _ (p : String → Bool) where
  pub IsUnique-append_where :
      (ids xs : List String) → IsUnique xs → IsUnique (append_where p ids xs)
  unfolding append_where
  IsUnique-append_where [] xs h = h
  IsUnique-append_where (id ∷ ids) xs h =
      IsUnique-append_where ids (if p id then append_unique id xs else xs)
        (IsUnique-append_if (p id) id xs h)

  passes_eq : (id s : String) → (id == s) ≡ true → p id ≡ p s
  passes_eq id s h = ap p ((eq_iff id s).0 h)

  pub contains-append_where :
      (s : String) (ids xs : List String)
      → contains s (append_where p ids xs) ≡ (contains s xs || (contains s ids && p s))
  unfolding append_where contains
  contains-append_where s [] xs = ground arith
  contains-append_where s (id ∷ ids) xs = ground (
    arith,
    contains-append_where s ids (if p id then append_unique id xs else xs),
    contains-append_if s id (p id) xs,
    passes_eq id s,
  )
