-- ===== src/Retrieval/Merge.antt =====
-- The papers that a merge leaves: one for each DOI, and none lost.
use mathlib.Core.Path.{subst}
use lit_trace.Base.{
  ◌+◌, ◌≤◌, String, ◌≡◌, ◌⊎◌, sym, refl, true, false, Option, none, some, [], ◌∷◌, ◌||◌, ◌==◌,
  arith, if◌then◌else◌, eq_iff, eq_refl, ==→≡, Option-cases, Bool-cases, inl, inr, length, is_none,
}
use lit_trace.Base.All.{All}
use lit_trace.Retrieval.{
  PaperMetadata, Texts, Merged, holds, fill_text, merge_paper, key_in, put_paper, own_key,
  merge_key, merge_one,
}

-- The keys of the entries do not repeat.
abbrev pub AreDistinct : Merged → Type 0
AreDistinct [] = Unit
AreDistinct (e ∷ es) = All (λ d. (d.0 == e.0) ≡ false) es × AreDistinct es

put_paper-All :
    (P : String × PaperMetadata → Type 0) (k : String) (p : PaperMetadata) (es : Merged)
    → P (k, p)
    → All P es
    → All P (put_paper k p es)
put_paper-All P k p [] h a = (h, tt)
put_paper-All P k p (e ∷ es) h a = elim (Bool-cases (e.0 == k)) [
  | inl same ↦ rw same (h, a.1)
  | inr other ↦ rw other (a.0, put_paper-All P k p es h a.1)
]

put_paper-AreDistinct :
    (k : String) (p : PaperMetadata) (es : Merged) → AreDistinct es → AreDistinct (put_paper k p es)
put_paper-AreDistinct k p [] d = (tt, tt)
put_paper-AreDistinct k p (e ∷ es) d = elim (Bool-cases (e.0 == k)) [
  | inl same ↦ rw same (rw (← ==→≡ e.0 k same) d.0, d.1)
  | inr other ↦ rw other (
    put_paper-All (λ x. (x.0 == e.0) ≡ false) k p es (ground (arith, eq_iff e.0 k, eq_iff k e.0))
        d.0,
    put_paper-AreDistinct k p es d.1,
  )
]

pub length-put_paper :
    (k : String) (p : PaperMetadata) (es : Merged) → length (put_paper k p es) ≤ length es + 1
length-put_paper k p [] = omega arith
length-put_paper k p (e ∷ es) = ground (arith, length-put_paper k p es)

pub key_in-put_paper_self :
    (k : String) (p : PaperMetadata) (es : Merged) → key_in k (put_paper k p es) ≡ some p
key_in-put_paper_self k p [] = ground (arith, eq_refl k)
key_in-put_paper_self k p (e ∷ es) = ground (arith, eq_refl k, key_in-put_paper_self k p es)

pub key_in-put_paper_ne :
    (k j : String) (p : PaperMetadata) (es : Merged)
    → (k == j) ≡ false
    → key_in j (put_paper k p es) ≡ key_in j es
key_in-put_paper_ne k j p [] h = ground arith
key_in-put_paper_ne k j p (e ∷ es) h =
    ground (arith, eq_iff e.0 k, eq_iff e.0 j, eq_iff k j, key_in-put_paper_ne k j p es h)

pub key_in-All :
    (P : String × PaperMetadata → Type 0) (k : String) (q : PaperMetadata) (es : Merged)
    → All P es
    → key_in k es ≡ some q
    → P (k, q)
key_in-All P k q [] a h = cc
key_in-All P k q (e ∷ es) a h = elim (Bool-cases (e.0 == k)) [
  | inl same ↦
      let found : e.1 ≡ q = ground arith in
      rw (← ==→≡ e.0 k same) (subst (λ x. P (e.0, x)) found a.0)
  | inr other ↦ key_in-All P k q es a.1 (ground arith)
]

fill_text-cases :
    (l r : Option String) (d : String)
    → fill_text l r ≡ some d
    → (d == "") ≡ false
    → (l ≡ some d) ⊎ ((r ≡ some d) × (holds l ≡ false))
fill_text-cases none none d e n = cc
fill_text-cases none (some s) d e n = elim (Bool-cases (s == "")) [
  | inl blank ↦ absurd (ground arith)
  | inr full ↦ inr (ground arith, refl)
]
fill_text-cases (some l) none d e n = inl (ground arith)
fill_text-cases (some l) (some s) d e n = elim (Bool-cases (l == "")) [
  | inl blank ↦ elim (Bool-cases (s == "")) [
    | inl empty ↦ inl (ground arith)
    | inr full ↦ inr (ground arith, rw blank refl)
  ]
  | inr full ↦ inl (ground arith)
]

pub holds-fill_text :
    (l r : Option String) → holds l || holds r ≡ true → holds (fill_text l r) ≡ true
holds-fill_text l r h = ground arith

module _ (t : Texts) where
  open t use {lower, title_key}

  -- The DOI of an entry is the one of its key.
  abbrev pub HasKey : String × PaperMetadata → Type 0
  HasKey e = (d : String) → e.1.doi ≡ some d → (d == "") ≡ false → lower d ≡ e.0

  own_key-some :
      (p : PaperMetadata) (o : Option String) (d j : String)
      → o ≡ some d
      → (d == "") ≡ false
      → (if is_none o then j else own_key t p o) ≡ lower d
  own_key-some p none d j e n = cc
  own_key-some p (some c) d j e n = ground arith

  pub own-HasKey : (merged : Merged) (p : PaperMetadata) → HasKey (merge_key t merged p, p)
  unfolding merge_key
  own-HasKey merged p d e n = sym (own_key-some p p.doi d _ e n)

  merge-HasKey :
      (k : String) (q p : PaperMetadata)
      → HasKey (k, q)
      → HasKey (k, p)
      → HasKey (k, merge_paper q p)
  unfolding merge_paper
  merge-HasKey k q p hq hp d e n = elim (fill_text-cases q.doi p.doi d e n) [
    | inl old ↦ hq d old n
    | inr (new, _) ↦ hp d new n
  ]

  -- The entries of a merge.
  pub record IsKeyed (merged : Merged) : Type 0 where
    pub distinct : AreDistinct merged
    pub keyed : All HasKey merged

  module _ (merged : Merged) (p : PaperMetadata) where
    -- The paper that is put under the key of a paper.
    abbrev pub put_of : Option PaperMetadata → PaperMetadata
    put_of none = p
    put_of (some q) = merge_paper q p

    pub merge_one-put :
        merge_one t merged p
        ≡ put_paper (merge_key t merged p) (put_of (key_in (merge_key t merged p) merged)) merged
    unfolding merge_one
    merge_one-put = elim (Option-cases (key_in (merge_key t merged p) merged)) [
      | inl e ↦ rw (merge_one, e) refl
      | inr (q, e) ↦ rw (merge_one, e) refl
    ]

    put-HasKey :
        All HasKey merged
        → HasKey (merge_key t merged p, put_of (key_in (merge_key t merged p) merged))
    put-HasKey a = elim (Option-cases (key_in (merge_key t merged p) merged)) [
      | inl e ↦ rw e (own-HasKey merged p)
      | inr (q, e) ↦ rw e (
          merge-HasKey (merge_key t merged p) q p
            (key_in-All HasKey (merge_key t merged p) q merged a e) (own-HasKey merged p))
    ]

    pub merge_one-IsKeyed : IsKeyed merged → IsKeyed (merge_one t merged p)
    merge_one-IsKeyed h = rw merge_one-put (record {
      distinct = put_paper-AreDistinct _ _ merged h.distinct;
      keyed = put_paper-All HasKey _ _ merged (put-HasKey h.keyed) h.keyed;
    })
