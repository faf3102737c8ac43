-- ===== src/Json.antt =====
-- The values that the store writes to JSONB columns (state_db.py): Python objects as `dict[str,
-- object]` holds them, their sanitising at the persistence boundary, and the encoding of `_jsonb`.
pub mod Clean
pub mod Dicts
use Prim.Native.Char.{code}
use lit_trace.Base.{
  ℕ, String, Bool, true, false, Option, none, some, List, [], ◌∷◌, nat_eq, if◌then◌else◌, ◌==◌,
}

-- Numbers are the natural ones. `other s` is a value that `json.dumps` cannot write, with its `str()`.
mutual
  pub data Json : Type 0 where
    null : Json
    bool : Bool → Json
    num : ℕ → Json
    str : String → Json
    list tuple : Items → Json
    dict : Fields → Json
    other : String → Json

  pub data Items : Type 0 where
    nil : Items
    cons : Json → Items → Items

  pub data Fields : Type 0 where
    end : Fields
    field : String → Json → Fields → Fields

-- `d.get(k)` of a dict.
abbrev pub get : String → Fields → Option Json
get k end = none
get k (field j v fs) = if j == k then some v else get k fs

-- `d[k] = v` of a dict.
abbrev pub set : String → Json → Fields → Fields
set k v end = field k v end
set k v (field j w fs) = if j == k then field j v fs else field j w (set k v fs)

-- `x.get(k) if isinstance(x, dict) else None`
abbrev pub get_in : String → Option Json → Option Json
get_in k (some (dict fs)) = get k fs
get_in k _ = none

-- `value == n` of Python, where `True` is 1 and `False` is 0.
abbrev pub equals_number : Option Json → ℕ → Bool
equals_number (some (num m)) n = nat_eq m n
equals_number (some (bool true)) n = nat_eq 1 n
equals_number (some (bool false)) n = nat_eq 0 n
equals_number _ n = false

-- `value.replace("\x00", "")`
unfoldable pub remove_nul : String → String
remove_nul String.[] = String.[]
remove_nul (String.◌∷◌ c s) =
    let rest = remove_nul s in if nat_eq (code c) 0 then rest else String.◌∷◌ c rest

unfoldable mutual
  pub sanitize_json_value : Json → Json
  sanitize_json_value (str s) = str (remove_nul s)
  sanitize_json_value (dict fs) = dict (sanitize_fields fs)
  sanitize_json_value (list xs) = list (sanitize_items xs)
  sanitize_json_value (tuple xs) = list (sanitize_items xs)
  sanitize_json_value null = null
  sanitize_json_value (bool b) = bool b
  sanitize_json_value (num n) = num n
  sanitize_json_value (other s) = other s

  pub sanitize_items : Items → Items
  sanitize_items nil = nil
  sanitize_items (cons x xs) = cons (sanitize_json_value x) (sanitize_items xs)

  pub sanitize_fields : Fields → Fields
  sanitize_fields end = end
  sanitize_fields (field k v fs) = field k (sanitize_json_value v) (sanitize_fields fs)

-- What `json.dumps(…, default=str)` makes of a value: a tuple is an array, any other object its text.
unfoldable mutual
  pub dump : Json → Json
  dump (other s) = str s
  dump (dict fs) = dict (dump_fields fs)
  dump (list xs) = list (dump_items xs)
  dump (tuple xs) = list (dump_items xs)
  dump null = null
  dump (bool b) = bool b
  dump (num n) = num n
  dump (str s) = str s

  pub dump_items : Items → Items
  dump_items nil = nil
  dump_items (cons x xs) = cons (dump x) (dump_items xs)

  pub dump_fields : Fields → Fields
  dump_fields end = end
  dump_fields (field k v fs) = field k (dump v) (dump_fields fs)

-- The value of the column after `_jsonb(d)` is written to it.
unfoldable pub jsonb : Fields → Fields
jsonb d = dump_fields (sanitize_fields d)

abbrev pub empty : Fields
empty = end
