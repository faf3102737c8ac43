-- ===== src/Tools/Values.antt =====
-- tool_contracts.py: what the result of a tool tells of the value that the tool returned, its warnings
-- and a summary. `str` and the size of a dump are the language's and pydantic's: parameters.
use Prim.Native.String
use lit_trace.Base.{
  ℕ, suc, String, Option, none, some, List, [], ◌∷◌, ◌++◌, ◌==◌, if◌then◌else◌, take,
}
use lit_trace.Base.Words.{text_le}
use lit_trace.Base.Sort.{sort_by}
use lit_trace.Json.{num, str, list, dict, Items, nil, cons, Fields, end, field}

-- A Python value by the tests of the module: a tuple, a list, a dict, by the `str()` of its keys, or an
-- object of a class with its attributes. Texts and numbers are objects without attributes.
mutual
  pub data Value : Type 0 where
    tuple list_of : Values → Value
    dict_of : Attributes → Value
    object : String → Attributes → Value

  pub data Values : Type 0 where
    nothing : Values
    item : Value → Values → Values

  pub data Attributes : Type 0 where
    no_more : Attributes
    attribute : String → Value → Attributes → Attributes

-- `d.get(k)` and `getattr(value, k, None)`
abbrev pub attribute_of : String → Attributes → Option Value
attribute_of k no_more = none
attribute_of k (attribute j v a) = if j == k then some v else attribute_of k a

abbrev pub strings_of : (Value → String) → Values → List String
strings_of to_str nothing = []
strings_of to_str (item v vs) = to_str v ∷ strings_of to_str vs

-- `[str(item) for item in raw]`, where `raw` is a list.
abbrev pub texts_in : (Value → String) → Option Value → List String
texts_in to_str (some (list_of vs)) = strings_of to_str vs
texts_in to_str _ = []

unfoldable mutual
  pub extract_warnings : (Value → String) → Value → List String
  extract_warnings to_str (tuple vs) = extract_all to_str vs
  extract_warnings to_str (list_of vs) = []
  extract_warnings to_str (dict_of a) = texts_in to_str (attribute_of "warnings" a)
  extract_warnings to_str (object c a) = texts_in to_str (attribute_of "warnings" a)

  pub extract_all : (Value → String) → Values → List String
  extract_all to_str nothing = []
  extract_all to_str (item v vs) = extract_warnings to_str v ++ extract_all to_str vs

abbrev pub count_of : Values → ℕ
count_of nothing = 0
count_of (item v vs) = suc (count_of vs)

abbrev pub keys_of : Attributes → List String
keys_of no_more = []
keys_of (attribute j v a) = j ∷ keys_of a

abbrev pub str_items : List String → Items
str_items [] = nil
str_items (s ∷ ss) = cons (str s) (str_items ss)

-- The count of an attribute that is a list.
abbrev pub counted : String → Attributes → Fields → Fields
counted k a fs = elim (attribute_of k a) [
  | some (list_of vs) ↦ field (String.◌++◌ k "_count") (num (count_of vs)) fs
  | _ ↦ fs
]

abbrev pub counts : List String → Attributes → Fields
counts [] a = end
counts (k ∷ ks) a = counted k a (counts ks a)

unfoldable mutual
  pub summarize_output : Value → Fields
  summarize_output (tuple vs) =
      field "type" (str "tuple") (field "items" (list (summarize_all vs)) end)
  summarize_output (list_of vs) = field "type" (str "list") (field "count" (num (count_of vs)) end)
  summarize_output (dict_of a) =
      field "type" (str "dict")
        (field "keys" (list (str_items (take 20 (sort_by text_le (keys_of a))))) end)
  summarize_output (object c a) =
      field "type" (str c)
        (counts ("papers" ∷ "items" ∷ "matrices" ∷ "sections" ∷ "records" ∷ "claims" ∷ []) a)

  pub summarize_all : Values → Items
  summarize_all nothing = nil
  summarize_all (item v vs) = cons (dict (summarize_output v)) (summarize_all vs)
