-- ===== src/Tools/Summary.antt =====
-- The counts of the summary of contracts.
use lit_trace.Base.{
  ℕ, ◌+◌, String, ◌≡◌, Bool, List, [], ◌∷◌, ◌==◌, arith, if◌then◌else◌, eq_iff, length,
}
use lit_trace.Base.Table.{select}
use lit_trace.Tools.{ToolContract}
use lit_trace.Tools.Contracts.{count_one, count_categories, summary_of}

-- The count under a name, 0 for a name that is not there.
abbrev pub count_of : String → List (String × ℕ) → ℕ
count_of k [] = 0
count_of k (n ∷ ns) = if n.0 == k then n.1 else count_of k ns

abbrev pub total : List (String × ℕ) → ℕ
total [] = 0
total (n ∷ ns) = n.1 + total ns

abbrev pub in_category : String → ToolContract → Bool
in_category k c = c.category == k

total-count_one : (k : String) (ns : List (String × ℕ)) → total (count_one k ns) ≡ total ns + 1
total-count_one k [] = omega arith
total-count_one k (n ∷ ns) = ground (arith, total-count_one k ns)

count_of-count_one :
    (k j : String) (ns : List (String × ℕ))
    → count_of j (count_one k ns) ≡ count_of j ns + (if k == j then 1 else 0)
count_of-count_one k j [] = ground arith
count_of-count_one k j (n ∷ ns) =
    ground (arith, eq_iff n.0 k, eq_iff n.0 j, eq_iff k j, count_of-count_one k j ns)

total-count_categories :
    (cs : List ToolContract) (ns : List (String × ℕ))
    → total (count_categories ns cs) ≡ total ns + length cs
unfolding count_categories
total-count_categories [] ns = omega arith
total-count_categories (c ∷ cs) ns =
    omega
      (arith, total-count_categories cs (count_one c.category ns), total-count_one c.category ns)

count_of-count_categories :
    (k : String) (cs : List ToolContract) (ns : List (String × ℕ))
    → count_of k (count_categories ns cs) ≡ count_of k ns + length (select (in_category k) cs)
unfolding count_categories select
count_of-count_categories k [] ns = omega arith
count_of-count_categories k (c ∷ cs) ns = ground (
  arith,
  count_of-count_categories k cs (count_one c.category ns),
  count_of-count_one c.category k ns,
)

-- In the summary of any contracts the counts of the categories add up to the number of contracts, and
-- the count of each category is the number of the contracts in it.
summary_of-counts :
    (cs : List ToolContract)
    → ((summary_of cs).count ≡ total (summary_of cs).categories)
      × ((k : String) → count_of k (summary_of cs).categories ≡ length (select (in_category k) cs))
unfolding summary_of
summary_of-counts cs = (
  omega (arith, total-count_categories cs []),
  λ k. omega (arith, count_of-count_categories k cs []),
)
