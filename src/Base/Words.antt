-- ===== src/Base/Words.antt =====
-- Texts as their code points: prefixes, texts inside texts, and the lower case of the ASCII letters.
use Prim.Native.Char.{code}
use Prim.Native.Nat.{ℕ, ◌+◌, Ordering}
use Prim.Native.String
use Prim.Native.String.{String}
use mathlib.Core.Bool.{Bool, true, false, ◌&&◌, ◌||◌}
use mathlib.Core.List.{List, [], ◌∷◌, ◌++◌}
use mathlib.Core.Path.{◌≡◌, ap}
use text.Mathlib.TextLemmas.{nil-append, cons-append}
use lit_trace.Base.Tests.{leb, nat_eq, if◌then◌else◌}

abbrev pub codes : String → List ℕ
codes String.[] = []
codes (String.◌∷◌ c s) = code c ∷ codes s

-- The white space of `str.strip`.
unfoldable pub is_space : ℕ → Bool
is_space c =
    (leb 9 c && leb c 13)
    || ((leb 28 c && leb c 32)
        || (nat_eq c 133
            || (nat_eq c 160
                || (nat_eq c 5760
                    || ((leb 8192 c && leb c 8202)
                        || (nat_eq c 8232
                            || (nat_eq c 8233
                                || (nat_eq c 8239 || (nat_eq c 8287 || nat_eq c 12288)))))))))

-- `not s.strip()`
unfoldable pub is_blank : String → Bool
unfolding is_space
is_blank String.[] = true
is_blank (String.◌∷◌ c s) = is_space (code c) && is_blank s

-- `s.startswith(t)`
abbrev pub begins : (s t : List ℕ) → Bool
begins s [] = true
begins [] (d ∷ t) = false
begins (c ∷ s) (d ∷ t) = nat_eq c d && begins s t

abbrev pub same_codes : (s t : List ℕ) → Bool
same_codes [] [] = true
same_codes (c ∷ s) (d ∷ t) = nat_eq c d && same_codes s t
same_codes _ _ = false

-- `t in s`
unfoldable pub has_text : (t s : List ℕ) → Bool
has_text t [] = begins [] t
has_text t (c ∷ s) = begins (c ∷ s) t || has_text t s

-- `s.lower()`, as far as it makes ASCII letters.
abbrev pub lower_code : ℕ → ℕ
lower_code c = if leb 65 c && leb c 90 then c + 32 else c

unfoldable pub lower : String → List ℕ
lower String.[] = []
lower (String.◌∷◌ c s) = lower_code (code c) ∷ lower s

-- `s <= t` of texts, by their code points.
abbrev pub text_le : (s t : String) → Bool
text_le s t = elim (String.compare s t) [ Ordering.gt ↦ false | _ ↦ true ]

pub lower-append : (s t : String) → lower (String.◌++◌ s t) ≡ lower s ++ lower t
unfolding lower
lower-append String.[] t = ap lower (nil-append t)
lower-append (String.◌∷◌ c s) t =
    rw (cons-append c s t) (ap (λ l. lower_code (code c) ∷ l) (lower-append s t))

abbrev flush : List ℕ → List (List ℕ) → List (List ℕ)
flush [] rest = rest
flush (c ∷ cs) rest = (c ∷ cs) ∷ rest

-- `s.split()`, after a word that has begun.
unfoldable pub split_from : (word s : List ℕ) → List (List ℕ)
unfolding is_space
split_from word [] = flush word []
split_from word (c ∷ cs) = elim (is_space c) [
  | true ↦ flush word (split_from [] cs)
  | false ↦ split_from (word ++ c ∷ []) cs
]

-- `" ".join(words)`
abbrev pub spaced : List (List ℕ) → List ℕ
spaced [] = []
spaced (w ∷ []) = w
spaced (w ∷ v ∷ ws) = w ++ 32 ∷ spaced (v ∷ ws)
