-- ===== src/Base/Text.antt =====
-- Equality of texts as the model tests it.
use Prim.Native.Nat.{ℕ, zero, suc}
use Prim.Native.String
use Prim.Native.String.{String}
use mathlib.Core.Path.{◌≡◌}
use mathlib.Core.Logic.{◌≢◌}
use mathlib.Core.Bool.{true, false}
use mathlib.Core.List.{List, [], ◌∷◌}
use native.Mathlib.Omega.{arith}
use text.Mathlib.Text.{◌==◌}
use text.Mathlib.TextEquality.{eq_iff}

pub ==-trans_ne : (s a b : String) → (s == a) ≡ true → b ≢ a → (s == b) ≡ false
==-trans_ne s a b h n = ground (arith, eq_iff s a, eq_iff s b)

pub ==→≡ : (a b : String) → (a == b) ≡ true → a ≡ b
==→≡ a b h = (eq_iff a b).0 h

-- The texts one after another.
abbrev pub join : List String → String
join [] = ""
join (s ∷ ss) = String.◌++◌ s (join ss)

-- `s[:n]`
abbrev pub first_chars : ℕ → String → String
first_chars zero s = ""
first_chars (suc n) String.[] = ""
first_chars (suc n) (String.◌∷◌ c s) = String.◌∷◌ c (first_chars n s)
