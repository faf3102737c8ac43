-- ===== src/Base/Unique.antt =====
-- Membership in lists of texts, and lists without repetitions.
use mathlib.Core.Path.{◌≡◌, refl, ◌∙◌}
use mathlib.Core.Logic.{inl, inr}
use mathlib.Core.Bool.{Bool, true, false, ◌||◌}
use mathlib.Core.List.{List, [], ◌∷◌, ◌++◌}
use Prim.Native.String.{String}
use native.Mathlib.Omega.{arith}
use text.Mathlib.TextEquality.{eq_iff}
use text.Mathlib.Text.{◌==◌}
use lit_trace.Base.Tests.{if◌then◌else◌, Bool-cases}
use lit_trace.Base.Table.{select}

-- `x in xs`
abbrev pub is_in : String → List String → Bool
is_in x [] = false
is_in x (y ∷ ys) = y == x || is_in x ys

-- `dict.fromkeys`: the first occurrences, in their order, without what was seen before.
unfoldable pub first_occurrences : (seen xs : List String) → List String
first_occurrences seen [] = []
first_occurrences seen (x ∷ xs) =
    let rest = first_occurrences seen xs in
    let more = first_occurrences (x ∷ seen) xs in if is_in x seen then rest else x ∷ more

-- Each element is in no list of those that stand behind it.
abbrev pub IsUnique : List String → Type 0
IsUnique [] = Unit
IsUnique (x ∷ xs) = (is_in x xs ≡ false) × IsUnique xs

-- Every element of a list is in another.
abbrev pub IsWithin : (xs ys : List String) → Type 0
IsWithin xs ys = (x : String) → is_in x xs ≡ true → is_in x ys ≡ true

pub is_in-first_occurrences :
    (x : String) (seen xs : List String)
    → is_in x seen ≡ true
    → is_in x (first_occurrences seen xs) ≡ false
unfolding first_occurrences
is_in-first_occurrences x seen [] h = refl
is_in-first_occurrences x seen (y ∷ ys) h = ground (
  arith,
  eq_iff y x,
  is_in-first_occurrences x seen ys h,
  is_in-first_occurrences x (y ∷ seen) ys,
)

pub first_occurrences-IsUnique : (seen xs : List String) → IsUnique (first_occurrences seen xs)
unfolding first_occurrences
first_occurrences-IsUnique seen [] = tt
first_occurrences-IsUnique seen (x ∷ xs) = elim (Bool-cases (is_in x seen)) [
  | inl old ↦ rw old (first_occurrences-IsUnique seen xs)
  | inr new ↦ rw new (
    is_in-first_occurrences x (x ∷ seen) xs (ground (arith, eq_iff x x)),
    first_occurrences-IsUnique (x ∷ seen) xs,
  )
]

-- A selection keeps a list unique, and is within it.
pub is_in-select :
    (p : String → Bool) (x : String) (xs : List String)
    → is_in x (select p xs) ≡ true
    → (is_in x xs ≡ true) × (p x ≡ true)
unfolding select
is_in-select p x [] h = cc
is_in-select p x (y ∷ ys) h = elim (Bool-cases (y == x)) [
  | inl same ↦ elim (Bool-cases (p y)) [
    | inl passes ↦ let eq = (eq_iff y x).0 same in (ground arith, rw (← eq) passes)
    | inr fails ↦ ground (arith, is_in-select p x ys)
  ]
  | inr other ↦ ground (arith, is_in-select p x ys)
]

not_selected :
    (p : String → Bool) (x : String) (xs : List String)
    → is_in x xs ≡ false
    → is_in x (select p xs) ≡ false
not_selected p x xs h = elim (Bool-cases (is_in x (select p xs))) [
  | inl there ↦ absurd (ground (arith, (is_in-select p x xs there).0))
  | inr gone ↦ gone
]

pub select-IsUnique : (p : String → Bool) (xs : List String) → IsUnique xs → IsUnique (select p xs)
unfolding select
select-IsUnique p [] h = tt
select-IsUnique p (x ∷ xs) h = elim (Bool-cases (p x)) [
  | inl passes ↦ rw passes (not_selected p x xs h.0, select-IsUnique p xs h.1)
  | inr fails ↦ rw fails (select-IsUnique p xs h.1)
]

pub is_in-append :
    (x : String) (xs ys : List String) → is_in x (xs ++ ys) ≡ is_in x xs || is_in x ys
is_in-append x [] ys = refl
is_in-append x (y ∷ xs) ys = ground (arith, is_in-append x xs ys)

-- What is appended is selected to be new.
pub append-IsUnique :
    (xs ys : List String)
    → IsUnique xs
    → IsUnique ys
    → ((x : String) → is_in x xs ≡ true → is_in x ys ≡ false)
    → IsUnique (xs ++ ys)
append-IsUnique [] ys h k apart = k
append-IsUnique (x ∷ xs) ys h k apart = (
  is_in-append x xs ys ∙ ground (arith, h.0, apart x, eq_iff x x),
  append-IsUnique xs ys h.1 k (λ z m. apart z (ground arith)),
)
