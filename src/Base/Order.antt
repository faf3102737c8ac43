-- ===== src/Base/Order.antt =====
-- A list in an order, every element before all the later ones, and the operations that keep it.
use Prim.Native.Nat.{ℕ, zero, suc}
use mathlib.Core.Path.{◌≡◌}
use mathlib.Core.Logic.{inl, inr}
use mathlib.Core.Bool.{Bool, true, false}
use mathlib.Core.List.{List, [], ◌∷◌}
use lit_trace.Base.Tests.{Bool-cases}
use lit_trace.Base.Lists.{take}
use lit_trace.Base.Table.{select}
use lit_trace.Base.All.{All, All-take, All-select_all, All-insert_by, All-mono}
use lit_trace.Base.Sort.{insert_by, sort_by}

abbrev pub IsOrdered {ℓ} : {A : Type ℓ} → (A → A → Bool) → List A → Type 0
IsOrdered before [] = Unit
IsOrdered before (x ∷ xs) = All (λ y. before x y ≡ true) xs × IsOrdered before xs

module _ {ℓ} {A : Type ℓ} (before : A → A → Bool) where
  pub IsOrdered-take : (n : ℕ) (xs : List A) → IsOrdered before xs → IsOrdered before (take n xs)
  IsOrdered-take zero xs h = tt
  IsOrdered-take (suc n) [] h = tt
  IsOrdered-take (suc n) (x ∷ xs) h = (All-take _ n xs h.0, IsOrdered-take n xs h.1)

  pub IsOrdered-select :
      (p : A → Bool) (xs : List A) → IsOrdered before xs → IsOrdered before (select p xs)
  unfolding select
  IsOrdered-select p [] h = tt
  IsOrdered-select p (x ∷ xs) h = elim (Bool-cases (p x)) [
    | inl yes_in ↦ rw yes_in (All-select_all _ p xs h.0, IsOrdered-select p xs h.1)
    | inr out ↦ rw out (IsOrdered-select p xs h.1)
  ]

  module _ (total : (x y : A) → before x y ≡ false → before y x ≡ true)
      (trans : (x y z : A) → before x y ≡ true → before y z ≡ true → before x z ≡ true) where
    IsOrdered-insert_by :
        (a : A) (xs : List A) → IsOrdered before xs → IsOrdered before (insert_by before a xs)
    unfolding insert_by
    IsOrdered-insert_by a [] h = (tt, tt)
    IsOrdered-insert_by a (x ∷ xs) h = elim (Bool-cases (before a x)) [
      | inl first ↦ rw first ((first, All-mono _ _ xs (λ y k. trans a x y first k) h.0), h)
      | inr later ↦ rw later (
        All-insert_by (λ y. before x y ≡ true) before a xs (total a x later) h.0,
        IsOrdered-insert_by a xs h.1,
      )
    ]

    pub IsOrdered-sort_by : (xs : List A) → IsOrdered before (sort_by before xs)
    unfolding sort_by
    IsOrdered-sort_by [] = tt
    IsOrdered-sort_by (x ∷ xs) = IsOrdered-insert_by x (sort_by before xs) (IsOrdered-sort_by xs)
