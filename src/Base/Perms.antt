-- ===== src/Base/Perms.antt =====
-- Lists that hold the same rows in another order.
use Prim.Native.Nat.{suc}
use mathlib.Core.Path.{◌≡◌, refl, ap}
use mathlib.Core.Logic.{inl, inr}
use mathlib.Core.Bool.{Bool, true}
use mathlib.Core.List
use mathlib.Core.List.{List, [], ◌∷◌}
use mathlib.Core.List.{Perm}
use mathlib.Core.List.Perm
use lit_trace.Base.Lists.{length}
use lit_trace.Base.Tests.{Bool-cases}
use lit_trace.Base.Table.{select}
use lit_trace.Base.Sort.{insert_by, sort_by}

module _ {ℓ} {A : Type ℓ} (before : A → A → Bool) (p : A → Bool) where
  select-cons_perm :
      (a : A) (xs ys : List A)
      → Perm (select p xs) (select p ys)
      → Perm (select p (a ∷ xs)) (select p (a ∷ ys))
  unfolding select
  select-cons_perm a xs ys h = elim (Bool-cases (p a)) [
    | inl kept ↦ rw kept (Perm.cons a h)
    | inr dropped ↦ rw dropped h
  ]

  select-swap_perm : (a x : A) (xs : List A) → Perm (select p (x ∷ a ∷ xs)) (select p (a ∷ x ∷ xs))
  unfolding select
  select-swap_perm a x xs = elim (Bool-cases (p a)) [
    | inl kept ↦ elim (Bool-cases (p x)) [
      | inl also ↦ rw (kept, also) (Perm.swap a x _)
      | inr dropped ↦ rw (kept, dropped) (Perm.refl _)
    ]
    | inr dropped ↦ rw dropped (Perm.refl _)
  ]

  select-insert_by_perm :
      (a : A) (xs : List A) → Perm (select p (insert_by before a xs)) (select p (a ∷ xs))
  unfolding insert_by
  select-insert_by_perm a [] = Perm.refl _
  select-insert_by_perm a (x ∷ xs) = elim (Bool-cases (before a x)) [
    | inl first ↦ rw first (Perm.refl _)
    | inr later ↦ rw later (
        Perm.trans
          (select-cons_perm x (insert_by before a xs) (a ∷ xs) (select-insert_by_perm a xs))
          (select-swap_perm a x xs))
  ]

  pub Perm-select_sort_by : (xs : List A) → Perm (select p (sort_by before xs)) (select p xs)
  unfolding sort_by
  Perm-select_sort_by [] = Perm.refl _
  Perm-select_sort_by (x ∷ xs) =
      Perm.trans (select-insert_by_perm x (sort_by before xs))
        (select-cons_perm x (sort_by before xs) xs (Perm-select_sort_by xs))

select_all {ℓ} : {A : Type ℓ} (xs : List A) → select (λ x. true) xs ≡ xs
unfolding select
select_all [] = refl
select_all (x ∷ xs) = rw (select_all xs) refl

length_native {ℓ} :
    {A : Type ℓ} (xs ys : List A) → List.length xs ≡ List.length ys → length xs ≡ length ys
length_native [] [] h = refl
length_native [] (y ∷ ys) h = cc
length_native (x ∷ xs) [] h = cc
length_native (x ∷ xs) (y ∷ ys) h = ap suc (length_native xs ys (cc))

pub Perm-length {ℓ} : {A : Type ℓ} (xs ys : List A) → Perm xs ys → length xs ≡ length ys
Perm-length xs ys h = length_native xs ys (Perm.length-eq h)

module _ {ℓ} {A : Type ℓ} (before : A → A → Bool) where
  pub Perm-sort_by : (xs : List A) → Perm (sort_by before xs) xs
  Perm-sort_by xs =
      let h : Perm (select (λ x. true) (sort_by before xs)) (select (λ x. true) xs) =
        Perm-select_sort_by before (λ x. true) xs in
      rw (select_all xs, select_all (sort_by before xs)) at h
