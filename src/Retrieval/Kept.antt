-- ===== src/Retrieval/Kept.antt =====
-- A merge loses no DOI and makes no more papers than there were.
use mathlib.Core.Path.{subst}
use lit_trace.Base.{
  ◌+◌, ◌≤◌, String, ◌≡◌, ◌≢◌, sym, ◌∙◌, refl, true, false, some, List, [], ◌∷◌, ◌||◌, ◌==◌, arith,
  eq_iff, ==→≡, Option-cases, Bool-cases, inl, inr, length,
}
use lit_trace.Base.All.{All, Any, All-mono}
use lit_trace.Retrieval.{
  PaperMetadata, Texts, Merged, holds, merge_paper, key_in, papers_of, merge_key, merge_one,
  merge_all, merge_papers,
}
use lit_trace.Retrieval.Merge.{
  AreDistinct, HasKey, own-HasKey, IsKeyed, merge_one-put, merge_one-IsKeyed, holds-fill_text,
  key_in-All, key_in-put_paper_self, key_in-put_paper_ne, length-put_paper,
}

merged_doi :
    (q p : PaperMetadata) → holds q.doi || holds p.doi ≡ true → holds (merge_paper q p).doi ≡ true
unfolding merge_paper
merged_doi q p h = holds-fill_text q.doi p.doi h

length-papers_of : (es : Merged) → length (papers_of es) ≡ length es
length-papers_of [] = refl
length-papers_of (e ∷ es) = omega (arith, length-papers_of es)

module _ (t : Texts) where
  open t use {lower, title_key}

  -- An entry under a key, with a DOI.
  abbrev HasDoi : String → Merged → Type 0
  HasDoi k merged = (q : PaperMetadata) × (key_in k merged ≡ some q) × (holds q.doi ≡ true)

  merge_one-HasDoi :
      (k : String) (merged : Merged) (p : PaperMetadata)
      → HasDoi k merged
      → HasDoi k (merge_one t merged p)
  merge_one-HasDoi k merged p (q, found, has) =
      rw (merge_one-put t merged p) (elim (Bool-cases (merge_key t merged p == k)) [
        | inl same ↦
            rw (==→≡ (merge_key t merged p) k same, found)
              (
                merge_paper q p,
                key_in-put_paper_self k (merge_paper q p) merged,
                merged_doi q p (ground arith),
              )
        | inr other ↦ (q, key_in-put_paper_ne (merge_key t merged p) k _ merged other ∙ found, has)
      ])

  own_key_lem :
      (merged : Merged) (p : PaperMetadata) (d : String)
      → p.doi ≡ some d
      → (d == "") ≡ false
      → merge_key t merged p ≡ lower d
  own_key_lem merged p d e n = sym (own-HasKey t merged p d e n)

  merge_one-own :
      (merged : Merged) (p : PaperMetadata) (d : String)
      → p.doi ≡ some d
      → (d == "") ≡ false
      → HasDoi (lower d) (merge_one t merged p)
  merge_one-own merged p d e n =
      rw (merge_one-put t merged p, own_key_lem merged p d e n)
        (elim (Option-cases (key_in (lower d) merged)) [
          | inl new ↦ rw new (p, key_in-put_paper_self (lower d) p merged, ground arith)
          | inr (q, old) ↦ rw old (
            merge_paper q p,
            key_in-put_paper_self (lower d) (merge_paper q p) merged,
            merged_doi q p (ground arith),
          )
        ])

  merge_all-HasDoi :
      (k : String) (merged : Merged) (ps : List PaperMetadata)
      → HasDoi k merged
      → HasDoi k (merge_all t merged ps)
  unfolding merge_all
  merge_all-HasDoi k merged [] h = h
  merge_all-HasDoi k merged (p ∷ ps) h =
      merge_all-HasDoi k (merge_one t merged p) ps (merge_one-HasDoi k merged p h)

  merge_all-IsKeyed :
      (merged : Merged) (ps : List PaperMetadata)
      → IsKeyed t merged
      → IsKeyed t (merge_all t merged ps)
  unfolding merge_all
  merge_all-IsKeyed merged [] h = h
  merge_all-IsKeyed merged (p ∷ ps) h =
      merge_all-IsKeyed (merge_one t merged p) ps (merge_one-IsKeyed t merged p h)

  length-merge_all :
      (merged : Merged) (ps : List PaperMetadata)
      → length (merge_all t merged ps) ≤ length merged + length ps
  unfolding merge_all
  length-merge_all merged [] = omega arith
  length-merge_all merged (p ∷ ps) =
      let one : length (merge_one t merged p) ≤ length merged + 1 =
        rw (merge_one-put t merged p) (length-put_paper _ _ merged) in
      omega (arith, length-merge_all (merge_one t merged p) ps, one)

  -- A paper with that DOI, up to its case.
  abbrev pub IsOfDoi : String → PaperMetadata → Type 0
  IsOfDoi d q = (c : String) × (q.doi ≡ some c) × ((c == "") ≡ false) × (lower c ≡ lower d)

  -- Two papers that have no DOI in common.
  abbrev pub AreApart : (p q : PaperMetadata) → Type 0
  AreApart p q =
      (c d : String)
      → p.doi ≡ some c
      → (c == "") ≡ false
      → q.doi ≡ some d
      → (d == "") ≡ false
      → lower c ≢ lower d

  abbrev pub AllApart : List PaperMetadata → Type 0
  AllApart [] = Unit
  AllApart (p ∷ ps) = All (AreApart p) ps × AllApart ps

  apart_from :
      (e : String × PaperMetadata) (es : Merged)
      → HasKey t e
      → All (λ d. (d.0 == e.0) ≡ false) es
      → All (HasKey t) es
      → All (AreApart e.1) (papers_of es)
  apart_from e [] k d a = tt
  apart_from e (f ∷ es) k d a = (
    λ c b ec nc eb nb same.
        let equal = (eq_iff f.0 e.0).1 (sym (a.0 b eb nb) ∙ (sym same ∙ k c ec nc)) in cc,
    apart_from e es k d.1 a.1,
  )

  papers_of-AllApart : (es : Merged) → AreDistinct es → All (HasKey t) es → AllApart (papers_of es)
  papers_of-AllApart [] d a = tt
  papers_of-AllApart (e ∷ es) d a = (apart_from e es a.0 d.0 a.1, papers_of-AllApart es d.1 a.1)

  key_in-Any :
      (P : PaperMetadata → Type 0) (k : String) (q : PaperMetadata) (es : Merged)
      → key_in k es ≡ some q
      → P q
      → Any P (papers_of es)
  key_in-Any P k q [] h x = cc
  key_in-Any P k q (e ∷ es) h x = elim (Bool-cases (e.0 == k)) [
    | inl same ↦ inl (let found : q ≡ e.1 = ground arith in subst P found x)
    | inr other ↦ inr (key_in-Any P k q es (ground arith) x)
  ]

  merge_all-kept :
      (merged : Merged) (ps : List PaperMetadata)
      → IsKeyed t merged
      → All
          (λ p.
            (d : String)
            → p.doi ≡ some d
            → (d == "") ≡ false
            → HasDoi (lower d) (merge_all t merged ps))
          ps
  unfolding merge_all
  merge_all-kept merged [] h = tt
  merge_all-kept merged (p ∷ ps) h = (
    λ d e n. merge_all-HasDoi (lower d) (merge_one t merged p) ps (merge_one-own merged p d e n),
    merge_all-kept (merge_one t merged p) ps (merge_one-IsKeyed t merged p h),
  )

  doi-Any :
      (merged : Merged) (d : String)
      → IsKeyed t merged
      → HasDoi (lower d) merged
      → Any (IsOfDoi d) (papers_of merged)
  doi-Any merged d h (q, found, has) = elim (Option-cases q.doi) [
    | inl none_there ↦ absurd (ground arith)
    | inr (c, there) ↦
        let full : (c == "") ≡ false = ground arith in
        key_in-Any (IsOfDoi d) (lower d) q merged found
          (c, there, full, key_in-All (HasKey t) (lower d) q merged h.keyed found c there full)
  ]

  -- What a merge promises of its result.
  pub record IsMerged (ps qs : List PaperMetadata) : Type 0 where
    pub apart : AllApart qs
    pub kept : All (λ p. (d : String) → p.doi ≡ some d → (d == "") ≡ false → Any (IsOfDoi d) qs) ps
    pub fewer : length qs ≤ length ps

  -- The merge of any papers holds one paper for each DOI up to its case: two papers of the result have no
  -- DOI in common, each DOI of a paper that was given is that of a paper of the result, and the result
  -- has no more papers than were given.
  pub merge_papers-IsMerged : (ps : List PaperMetadata) → IsMerged ps (merge_papers t ps)
  unfolding merge_papers
  merge_papers-IsMerged ps =
      let start : IsKeyed t [] = record { distinct = tt; keyed = tt } in
      let all = merge_all-IsKeyed [] ps start in
      record {
        apart = papers_of-AllApart (merge_all t [] ps) all.distinct all.keyed;
        kept =
            All-mono _ _ ps (λ p f d e n. doi-Any (merge_all t [] ps) d all (f d e n))
              (merge_all-kept [] ps start);
        fewer = omega (arith, length-papers_of (merge_all t [] ps), length-merge_all [] ps);
      }
