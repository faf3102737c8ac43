-- ===== src/Tools/Budget.antt =====
-- tool_contracts.py `_budget_violation` and `_charge_budget`: what is left of the named budgets of a
-- task, and what the costs of a tool take from it.
use lit_trace.Base.{
  ℕ, ◌+◌, ◌-◌, String, Bool, true, false, Option, none, some, List, [], ◌∷◌, ◌==◌, if◌then◌else◌,
  ltb, leb,
}
use lit_trace.Json.{num, Fields, end, field}

-- What is left of a budget: `over n` is the number -(n + 1).
pub data Budget : Type 0 where
  left over : ℕ → Budget

-- `remaining < cost`
abbrev pub falls_short : Budget → ℕ → Bool
falls_short (left n) cost = ltb n cost
falls_short (over n) cost = true

-- `remaining - cost`
abbrev pub minus : Budget → ℕ → Budget
minus (left n) cost = if leb cost n then left (n - cost) else over (cost - n - 1)
minus (over n) cost = over (n + cost)

-- `none` for a budget name that the ledger does not hold.
abbrev pub budget_of : String → List (String × Budget) → Option Budget
budget_of k [] = none
budget_of k (b ∷ bs) = if b.0 == k then some b.1 else budget_of k bs

abbrev pub set_budget : String → Budget → List (String × Budget) → List (String × Budget)
set_budget k v [] = []
set_budget k v (b ∷ bs) = (if b.0 == k then (k, v) else b) ∷ set_budget k v bs

-- `name in remaining_budget and remaining_budget[name] < cost`
abbrev pub short : ℕ → Option Budget → Bool
short cost none = false
short cost (some b) = falls_short b cost

-- The first cost that what is left does not cover.
unfoldable pub short_of : List (String × ℕ) → List (String × Budget) → Option String
short_of [] bs = none
short_of (c ∷ cs) bs = if short c.1 (budget_of c.0 bs) then some c.0 else short_of cs bs

unfoldable pub charge_one :
    String → ℕ → Option Budget → List (String × Budget) → List (String × Budget)
charge_one k cost none bs = bs
charge_one k cost (some b) bs = set_budget k (minus b cost) bs

abbrev pub note_charge : String → ℕ → Option Budget → Fields → Fields
note_charge k cost none charged = charged
note_charge k cost (some b) charged = field k (num cost) charged

-- The budgets after a call, and what was charged.
unfoldable pub charge_all :
    List (String × ℕ) → List (String × Budget) → List (String × Budget) × Fields
unfolding charge_one
charge_all [] bs = (bs, end)
charge_all (c ∷ cs) bs =
    let rest = charge_all cs (charge_one c.0 c.1 (budget_of c.0 bs) bs) in
    (rest.0, note_charge c.0 c.1 (budget_of c.0 bs) rest.1)
