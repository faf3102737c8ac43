-- ===== src/Tools/Charge.antt =====
-- What a charge that the budgets cover does to each of them.
use mathlib.Core.Path.{subst}
use lit_trace.Base.{
  eq_refl, ℕ, ◌+◌, ◌-◌, ◌≤◌, String, ◌≡◌, ◌∙◌, refl, false, Option, none, some, List, [], ◌∷◌, ◌==◌,
  arith, eq_iff, Bool-cases, ==→≡, inl, inr,
}
use lit_trace.Base.All.{All}
use lit_trace.Json.{Json, num, Fields, get}
use lit_trace.Tools.Budget.{
  Budget, left, budget_of, set_budget, minus, short_of, charge_all, charge_one,
}

-- The names of the costs do not repeat, as the keys of a dict.
abbrev pub AreDistinct : List (String × ℕ) → Type 0
AreDistinct [] = Unit
AreDistinct (c ∷ cs) = All (λ d. (d.0 == c.0) ≡ false) cs × AreDistinct cs

abbrev pub number : Option Json → ℕ
number (some (num n)) = n
number _ = 0

-- What a record of charges says of a name.
abbrev pub amount : String → Fields → ℕ
amount k charged = number (get k charged)

budget_of-set_budget_ne :
    (k j : String) (v : Budget) (bs : List (String × Budget))
    → (j == k) ≡ false
    → budget_of j (set_budget k v bs) ≡ budget_of j bs
budget_of-set_budget_ne k j v [] h = refl
budget_of-set_budget_ne k j v (b ∷ bs) h =
    ground (
      arith,
      eq_iff b.0 k,
      eq_iff b.0 j,
      eq_iff j k,
      eq_iff k j,
      budget_of-set_budget_ne k j v bs h,
    )

budget_of-set_budget_self :
    (k : String) (v b : Budget) (bs : List (String × Budget))
    → budget_of k bs ≡ some b
    → budget_of k (set_budget k v bs) ≡ some v
budget_of-set_budget_self k v b [] h = cc
budget_of-set_budget_self k v b (d ∷ bs) h =
    ground (arith, eq_iff d.0 k, eq_iff k k, budget_of-set_budget_self k v b bs)

module _ (k : String) (cost : ℕ) where
  budget_of-charge_one_ne :
      (j : String) (o : Option Budget) (bs : List (String × Budget))
      → (j == k) ≡ false
      → budget_of j (charge_one k cost o bs) ≡ budget_of j bs
  unfolding charge_one
  budget_of-charge_one_ne j none bs h = refl
  budget_of-charge_one_ne j (some b) bs h = budget_of-set_budget_ne k j (minus b cost) bs h

  short_of-charge_one :
      (o : Option Budget) (cs : List (String × ℕ)) (bs : List (String × Budget))
      → All (λ d. (d.0 == k) ≡ false) cs
      → short_of cs (charge_one k cost o bs) ≡ short_of cs bs
  unfolding short_of
  short_of-charge_one o [] bs h = refl
  short_of-charge_one o (c ∷ cs) bs h =
      ground (arith, budget_of-charge_one_ne c.0 o bs h.0, short_of-charge_one o cs bs h.1)

==_sym_false : (a b : String) → (a == b) ≡ false → (b == a) ≡ false
==_sym_false a b h = ground (arith, eq_iff a b, eq_iff b a)

-- A name without a cost keeps its budget, and nothing is charged under it.
uncharged :
    (k : String) (cs : List (String × ℕ)) (bs : List (String × Budget))
    → All (λ d. (d.0 == k) ≡ false) cs
    → (budget_of k (charge_all cs bs).0 ≡ budget_of k bs) × (amount k (charge_all cs bs).1 ≡ 0)
unfolding charge_all
uncharged k [] bs h = (refl, refl)
uncharged k (c ∷ cs) bs h =
    let o = budget_of c.0 bs in
    ground (
      arith,
      ==_sym_false c.0 k h.0,
      budget_of-charge_one_ne c.0 c.1 k o bs (==_sym_false c.0 k h.0),
      uncharged k cs (charge_one c.0 c.1 o bs) h.1,
    )

abbrev Covers : String → ℕ → List (String × ℕ) → List (String × Budget) → Type 0
Covers k n cs bs =
    (m : ℕ) × (budget_of k (charge_all cs bs).0 ≡ some (left m))
    × (m + amount k (charge_all cs bs).1 ≡ n)

module _ (n : ℕ) (c : String × ℕ) (cs : List (String × ℕ)) (bs : List (String × Budget))
    (d : AreDistinct (c ∷ cs)) (h : short_of (c ∷ cs) bs ≡ none) where
  affordable : budget_of c.0 bs ≡ some (left n) → c.1 ≤ n
  unfolding short_of
  affordable e = ground arith

  budget_of-charge_one_self :
      budget_of c.0 bs ≡ some (left n)
      → budget_of c.0 (charge_one c.0 c.1 (budget_of c.0 bs) bs) ≡ some (left (n - c.1))
  unfolding charge_one
  budget_of-charge_one_self e =
      let set : budget_of c.0 (set_budget c.0 (minus (left n) c.1) bs) ≡ some (minus (left n) c.1) =
        budget_of-set_budget_self c.0 (minus (left n) c.1) (left n) bs e in
      rw e (ground (arith, set, affordable e))

  charged_here : budget_of c.0 bs ≡ some (left n) → Covers c.0 n (c ∷ cs) bs
  unfolding charge_all
  charged_here e =
      let u = uncharged c.0 cs (charge_one c.0 c.1 (budget_of c.0 bs) bs) d.0 in
      (n - c.1, u.0 ∙ budget_of-charge_one_self e, ground (arith, u.1, affordable e, eq_refl c.0))

-- Where no cost exceeds what is left, a charge takes from a budget what it reports, and no more than
-- there was.
pub charge_all-Covers :
    (k : String) (n : ℕ) (cs : List (String × ℕ)) (bs : List (String × Budget))
    → AreDistinct cs
    → short_of cs bs ≡ none
    → budget_of k bs ≡ some (left n)
    → Covers k n cs bs
unfolding charge_all short_of
charge_all-Covers k n [] bs d h e = (n, e, omega arith)
charge_all-Covers k n (c ∷ cs) bs d h e = elim (Bool-cases (c.0 == k)) [
  | inl same ↦
      let eq = ==→≡ c.0 k same in
      subst (λ j. Covers j n (c ∷ cs) bs) eq (charged_here n c cs bs d h (rw eq e))
  | inr other ↦
      let o = budget_of c.0 bs in
      let bs' = charge_one c.0 c.1 o bs in
      let (m, kept, adds) =
        charge_all-Covers k n cs bs' d.1 (short_of-charge_one c.0 c.1 o cs bs d.0 ∙ ground arith)
          (budget_of-charge_one_ne c.0 c.1 k o bs (==_sym_false c.0 k other) ∙ e) in
      (m, kept, ground (arith, adds))
]
