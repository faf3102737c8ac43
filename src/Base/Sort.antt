-- ===== src/Base/Sort.antt =====
-- `ORDER BY`: a stable insertion sort by a test.
use mathlib.Core.Bool.{Bool}
use mathlib.Core.List.{List, [], ◌∷◌}
use lit_trace.Base.Tests.{if◌then◌else◌}

module _ {ℓ} {A : Type ℓ} where
  -- Puts an element before the first that need not stand in front of it.
  unfoldable pub insert_by : (A → A → Bool) → A → List A → List A
  insert_by before a [] = a ∷ []
  insert_by before a (x ∷ xs) = if before a x then a ∷ x ∷ xs else x ∷ insert_by before a xs

  unfoldable pub sort_by : (A → A → Bool) → List A → List A
  unfolding insert_by
  sort_by before [] = []
  sort_by before (x ∷ xs) = insert_by before x (sort_by before xs)
