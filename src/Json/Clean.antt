-- ===== src/Json/Clean.antt =====
-- What `sanitize_json_value` removes, and what it leaves.
use Prim.Native.Char.{code}
use lit_trace.Base.{
  String, ◌≡◌, refl, ap, Bool, true, false, List, [], ◌∷◌, arith, nat_eq, if◌then◌else◌,
}
use lit_trace.Json.{
  Json, null, bool, num, str, list, tuple, dict, other, Items, nil, cons, Fields, end, field,
  remove_nul, sanitize_json_value, sanitize_items, sanitize_fields,
}

unfoldable pub has_nul : String → Bool
has_nul String.[] = false
has_nul (String.◌∷◌ c s) = if nat_eq (code c) 0 then true else has_nul s

has_nul-remove_nul : (s : String) → has_nul (remove_nul s) ≡ false
unfolding has_nul remove_nul
has_nul-remove_nul String.[] = refl
has_nul-remove_nul (String.◌∷◌ c s) = ground (arith, has_nul-remove_nul s)

remove_nul_clean : (s : String) → has_nul s ≡ false → remove_nul s ≡ s
unfolding has_nul remove_nul
remove_nul_clean String.[] h = refl
remove_nul_clean (String.◌∷◌ c s) h = ground (arith, remove_nul_clean s)

-- Every text among the values, at any depth, is free of NUL, and no tuple is left.
abbrev mutual
  pub IsClean : Json → Type 0
  IsClean (str s) = has_nul s ≡ false
  IsClean (list xs) = IsCleanItems xs
  IsClean (tuple xs) = ⊥
  IsClean (dict fs) = IsCleanFields fs
  IsClean null = Unit
  IsClean (bool b) = Unit
  IsClean (num n) = Unit
  IsClean (other s) = Unit

  pub IsCleanItems : Items → Type 0
  IsCleanItems nil = Unit
  IsCleanItems (cons x xs) = IsClean x × IsCleanItems xs

  pub IsCleanFields : Fields → Type 0
  IsCleanFields end = Unit
  IsCleanFields (field k v fs) = IsClean v × IsCleanFields fs

mutual
  unfolding sanitize_json_value sanitize_items sanitize_fields

  sanitize_json_value_cleans : (v : Json) → IsClean (sanitize_json_value v)
  sanitize_json_value_cleans (str s) = has_nul-remove_nul s
  sanitize_json_value_cleans (list xs) = clean_items xs
  sanitize_json_value_cleans (tuple xs) = clean_items xs
  sanitize_json_value_cleans (dict fs) = clean_fields fs
  sanitize_json_value_cleans null = tt
  sanitize_json_value_cleans (bool b) = tt
  sanitize_json_value_cleans (num n) = tt
  sanitize_json_value_cleans (other s) = tt

  clean_items : (xs : Items) → IsCleanItems (sanitize_items xs)
  clean_items nil = tt
  clean_items (cons x xs) = (sanitize_json_value_cleans x, clean_items xs)

  clean_fields : (fs : Fields) → IsCleanFields (sanitize_fields fs)
  clean_fields end = tt
  clean_fields (field k v fs) = (sanitize_json_value_cleans v, clean_fields fs)

mutual
  unfolding sanitize_json_value sanitize_items sanitize_fields

  keep_value : (v : Json) → IsClean v → sanitize_json_value v ≡ v
  keep_value (str s) h = ap str (remove_nul_clean s h)
  keep_value (list xs) h = ap list (keep_items xs h)
  keep_value (tuple xs) h = absurd h
  keep_value (dict fs) h = ap dict (keep_fields fs h)
  keep_value null h = refl
  keep_value (bool b) h = refl
  keep_value (num n) h = refl
  keep_value (other s) h = refl

  keep_items : (xs : Items) → IsCleanItems xs → sanitize_items xs ≡ xs
  keep_items nil h = refl
  keep_items (cons x xs) h = cc (keep_value x h.0, keep_items xs h.1)

  keep_fields : (fs : Fields) → IsCleanFields fs → sanitize_fields fs ≡ fs
  keep_fields end h = refl
  keep_fields (field k v fs) h = cc (keep_value v h.0, keep_fields fs h.1)

-- `sanitize_json_value` makes every value clean: no text among the values holds a NUL, at any
-- depth, and no tuple is left. Sanitising again changes nothing.
sanitize_json_value-IsClean :
    (v : Json)
    → IsClean (sanitize_json_value v)
      × (sanitize_json_value (sanitize_json_value v) ≡ sanitize_json_value v)
sanitize_json_value-IsClean v = (
  sanitize_json_value_cleans v,
  keep_value (sanitize_json_value v) (sanitize_json_value_cleans v),
)

abbrev pub keys : Fields → List String
keys end = []
keys (field k v fs) = k ∷ keys fs

-- The keys of a dict are not sanitised: they come back as they were, also those that hold a NUL.
pub keys-sanitize_fields : (fs : Fields) → keys (sanitize_fields fs) ≡ keys fs
unfolding sanitize_fields
keys-sanitize_fields end = refl
keys-sanitize_fields (field k v fs) = ap (λ l. k ∷ l) (keys-sanitize_fields fs)
