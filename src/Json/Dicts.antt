-- ===== src/Json/Dicts.antt =====
-- Writes to a dict, and what is read after them.
use lit_trace.Base.{String, ◌≡◌, some, arith, eq_iff, eq_refl}
use lit_trace.Json.{Json, Fields, end, field, get, set}

pub get-set_self : (k : String) (v : Json) (fs : Fields) → get k (set k v fs) ≡ some v
get-set_self k v end = ground (arith, eq_refl k)
get-set_self k v (field j w fs) = ground (arith, eq_refl k, get-set_self k v fs)

pub set_twice : (k : String) (v w : Json) (fs : Fields) → set k v (set k w fs) ≡ set k v fs
set_twice k v w end = ground (arith, eq_refl k)
set_twice k v w (field j x fs) = ground (arith, eq_iff j k, eq_refl k, set_twice k v w fs)
