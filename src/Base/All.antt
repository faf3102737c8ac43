-- ===== src/Base/All.antt =====
-- A predicate on every element of a list, by recursion, and how the list operations keep it.
use Prim.Native.Nat.{ℕ, zero, suc}
use mathlib.Core.Path.{◌≡◌}
use mathlib.Core.Logic.{◌⊎◌}
use mathlib.Core.Bool.{Bool, true, false}
use mathlib.Core.List.{List, [], ◌∷◌, ◌++◌, map}
use native.Mathlib.Omega.{arith}
use lit_trace.Base.Lists.{take, drop}
use lit_trace.Base.Table.{select, update}
use lit_trace.Base.Sort.{insert_by, sort_by}

abbrev pub All {ℓ κ} : {A : Type ℓ} → (A → Type κ) → List A → Type κ
All P [] = Unit
All P (x ∷ xs) = P x × All P xs

-- Some element of the list satisfies the predicate.
abbrev pub Any {ℓ} : {A : Type ℓ} → (A → Type 0) → List A → Type 0
Any P [] = ⊥
Any P (x ∷ xs) = (P x) ⊎ Any P xs

module _ {ℓ κ} {A : Type ℓ} (P : A → Type κ) where
  pub All-take : (n : ℕ) (xs : List A) → All P xs → All P (take n xs)
  All-take zero xs h = tt
  All-take (suc n) [] h = tt
  All-take (suc n) (x ∷ xs) h = (h.0, All-take n xs h.1)

  pub All-drop : (n : ℕ) (xs : List A) → All P xs → All P (drop n xs)
  All-drop zero xs h = h
  All-drop (suc n) [] h = tt
  All-drop (suc n) (x ∷ xs) h = All-drop n xs h.1

  pub All-append : (xs ys : List A) → All P xs → All P ys → All P (xs ++ ys)
  All-append [] ys h k = k
  All-append (x ∷ xs) ys h k = (h.0, All-append xs ys h.1 k)

  pub All-insert_by :
      (before : A → A → Bool) (a : A) (xs : List A) → P a → All P xs → All P (insert_by before a xs)
  unfolding insert_by
  All-insert_by before a [] p h = (p, tt)
  All-insert_by before a (x ∷ xs) p h = ground (arith, All-insert_by before a xs p h.1)

  pub All-sort_by : (before : A → A → Bool) (xs : List A) → All P xs → All P (sort_by before xs)
  unfolding sort_by
  All-sort_by before [] h = tt
  All-sort_by before (x ∷ xs) h =
      All-insert_by before x (sort_by before xs) h.0 (All-sort_by before xs h.1)

  -- Every selected row passed the test.
  pub All-select : (p : A → Bool) (xs : List A) → ((x : A) → p x ≡ true → P x) → All P (select p xs)
  unfolding select
  All-select p [] k = tt
  All-select p (x ∷ xs) k = ground (arith, k x, All-select p xs k)

  pub All-select_if :
      (p : A → Bool) (xs : List A) → All (λ x. p x ≡ true → P x) xs → All P (select p xs)
  unfolding select
  All-select_if p [] h = tt
  All-select_if p (x ∷ xs) h = ground (arith, h.0, All-select_if p xs h.1)

  pub All-select_all : (p : A → Bool) (xs : List A) → All P xs → All P (select p xs)
  unfolding select
  All-select_all p [] h = tt
  All-select_all p (x ∷ xs) h = ground (arith, All-select_all p xs h.1)

  pub All-update :
      (p : A → Bool) (f : A → A) (xs : List A)
      → ((x : A) → p x ≡ true → P (f x))
      → ((x : A) → p x ≡ false → P x)
      → All P (update p f xs)
  unfolding update
  All-update p f [] k l = tt
  All-update p f (x ∷ xs) k l = ground (arith, k x, l x, All-update p f xs k l)

  -- The rows that an update wrote, where the update keeps its own test.
  pub All-select_update :
      (p : A → Bool) (f : A → A) (xs : List A)
      → ((x : A) → p x ≡ true → P (f x))
      → ((x : A) → p (f x) ≡ p x)
      → All P (select p (update p f xs))
  unfolding select update
  All-select_update p f [] k l = tt
  All-select_update p f (x ∷ xs) k l = ground (arith, k x, l x, All-select_update p f xs k l)

pub All-map {ℓ κ μ} :
    {A : Type ℓ} {B : Type κ} (P : B → Type μ) (f : A → B) (xs : List A)
    → All (λ x. P (f x)) xs
    → All P (map f xs)
All-map P f [] h = tt
All-map P f (x ∷ xs) h = (h.0, All-map P f xs h.1)

pub All-mono {ℓ κ μ} :
    {A : Type ℓ} (P : A → Type κ) (Q : A → Type μ) (xs : List A)
    → ((x : A) → P x → Q x)
    → All P xs
    → All Q xs
All-mono P Q [] k h = tt
All-mono P Q (x ∷ xs) k h = (k x h.0, All-mono P Q xs k h.1)
