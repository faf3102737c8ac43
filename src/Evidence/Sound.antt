-- ===== src/Evidence/Sound.antt =====
-- What a publishable claim has: the checks that its verification passed.
use lit_trace.Base.Unique.{is_in}
use lit_trace.Base.{
  is_empty, ◌≤◌, String, ◌≡◌, Bool, true, false, not, none, some, List, [], ◌∷◌, ◌||◌, ◌==◌, arith,
  ==→≡, Option-cases, Bool-cases, inl, inr,
}
use lit_trace.Base.All.{All}
use lit_trace.Base.Words.{is_blank}
use lit_trace.Base.Table.{select, exists}
use lit_trace.Evidence.{
  EvidenceSpan, Claim, has_location, provenance_complete, holds, text_of, publishable,
}
use lit_trace.Evidence.Measures.{Floats, distinct, sources_of, measurement_conflicts}
use lit_trace.Evidence.Claims.{
  Registry, is_unknown, span_of, spans_of, is_numeric, is_number, is_relational, keys_of, same_set,
  all_in, quoted_in, wrong_quote,
}
use lit_trace.Evidence.Verify.{
  claim_values, matches_a_value, metric_is_grounded, units_are_compatible, ranges_are_compatible,
  asserts, is_quote_bound, needs_freshness, check_claim, released, verify_structured_claim,
}
use lit_trace.Evidence.Checked.{
  numeric-measured, metric_error-none, semantic-asserted, check_claim-parts, quote_error-parts,
  released-corroborated,
}

-- No element of a list passes a test that selects none.
none_selected :
    (p : String → Bool) (xs : List String) (x : String)
    → is_empty (select p xs) ≡ true
    → is_in x xs ≡ true
    → p x ≡ false
unfolding select
none_selected p [] x h m = cc
none_selected p (y ∷ ys) x h m = elim (Bool-cases (y == x)) [
  | inl same ↦ rw (← ==→≡ y x same) (ground arith)
  | inr other ↦ ground (arith, none_selected p ys x)
]

all_in-All :
    (p : String → Bool) (qs : List (String × String)) (ids : List String)
    → ((x : String) → is_in x ids ≡ true → p x ≡ false)
    → all_in (keys_of qs) ids ≡ true
    → All (λ q. p q.0 ≡ false) qs
all_in-All p [] ids k h = tt
all_in-All p (q ∷ qs) ids k h = (k q.0 (ground arith), all_in-All p qs ids k (ground arith))

module _ (fl : Floats) (lower : String → String) (c : Claim fl.F) (reg : Registry fl.F) where
  open fl use {F}

  -- Every quote is a text of its own that stands in the registered span.
  abbrev pub IsQuoted : String × String → Type 0
  IsQuoted q =
      (e : EvidenceSpan F) × (span_of q.0 reg ≡ some e)
      × (is_blank q.1 ≡ false)
      × (quoted_in lower q.1 (text_of e.snippet) ≡ true)

  wrong_quote-All :
      (qs : List (String × String))
      → All (λ q. is_unknown reg q.0 ≡ false) qs
      → wrong_quote lower reg qs ≡ none
      → All IsQuoted qs
  unfolding wrong_quote
  wrong_quote-All [] k h = tt
  wrong_quote-All (q ∷ qs) k h = elim (Option-cases (span_of q.0 reg)) [
    | inl e ↦ cc
    | inr (s, e) ↦
        let h' = rw (wrong_quote, e) at h in
        ((s, e, ground arith, ground arith), wrong_quote-All qs k.1 (ground arith))
  ]

  passed :
      publishable (verify_structured_claim fl lower c reg) ≡ true
      → (is_empty (select (is_unknown reg) c.evidence_ids) ≡ true)
        × (exists (λ e. not (provenance_complete e)) (spans_of c.evidence_ids reg) ≡ false)
        × (check_claim fl lower c reg (spans_of c.evidence_ids reg) ≡ none)
        × (publishable (released fl lower c (spans_of c.evidence_ids reg)) ≡ true)
  unfolding verify_structured_claim publishable
  passed h = ground arith

  unregistered :
      (id : String)
      → is_empty (select (is_unknown reg) c.evidence_ids) ≡ true
      → is_in id c.evidence_ids ≡ true
      → is_unknown reg id ≡ false
  unregistered id h m = none_selected (is_unknown reg) c.evidence_ids id h m

  -- What verification demands of a claim, its quotes, its numbers, its freshness and its sources.
  pub record IsGrounded : Type 0 where
    pub registered :
        (id : String)
        → is_in id c.evidence_ids ≡ true
        → (e : EvidenceSpan F) × (span_of id reg ≡ some e) × (provenance_complete e ≡ true)
    pub quoted_ids : same_set (keys_of c.support_quotes) c.evidence_ids ≡ true
    pub quotes : All IsQuoted c.support_quotes
    pub measured :
        is_numeric c.claim_kind ≡ true
        → exists
            (matches_a_value fl lower (claim_values fl lower c))
            (select is_number (spans_of c.evidence_ids reg))
          ≡ true
    pub in_metric :
        is_numeric c.claim_kind ≡ true
        → (metric : String) × (c.metric ≡ some metric)
          × (metric_is_grounded fl lower metric c (select is_number (spans_of c.evidence_ids reg))
              ≡ true)
          × (units_are_compatible fl lower c (select is_number (spans_of c.evidence_ids reg))
              ≡ true)
          × (ranges_are_compatible fl lower c (select is_number (spans_of c.evidence_ids reg))
              ≡ true)
    pub fresh : needs_freshness fl lower c ≡ true → holds c.retrieval_cutoff_at ≡ true
    pub asserted :
        is_numeric c.claim_kind ≡ false
        → is_quote_bound fl lower c ≡ false
        → exists (asserts fl lower c) (spans_of c.evidence_ids reg) ≡ true
    pub corroborated :
        c.requires_corroboration || is_relational c.claim_kind ≡ true
        → (2 ≤ distinct (sources_of fl (select has_location (spans_of c.evidence_ids reg))))
          × (is_empty (
                measurement_conflicts fl
                  (select has_location (spans_of c.evidence_ids reg))
                  c.metric)
              ≡ true)

  span_of-spans_of :
      (p : EvidenceSpan F → Bool) (ids : List String) (id : String) (e : EvidenceSpan F)
      → exists p (spans_of ids reg) ≡ false
      → is_in id ids ≡ true
      → span_of id reg ≡ some e
      → p e ≡ false
  unfolding spans_of exists
  span_of-spans_of p [] id e h m f = cc
  span_of-spans_of p (j ∷ ids) id e h m f = elim (Bool-cases (j == id)) [
    | inl same ↦
        let here : span_of j reg ≡ some e = rw (==→≡ j id same) f in
        let h' = rw (spans_of, here) at h in ground arith
    | inr other ↦ elim (Option-cases (span_of j reg)) [
      | inl gone ↦
          let h' = rw (spans_of, gone) at h in span_of-spans_of p ids id e h' (ground arith) f
      | inr (d, there) ↦
          let h' = rw (spans_of, there) at h in
          span_of-spans_of p ids id e (ground arith) (ground arith) f
    ]
  ]

  registered_id :
      (id : String)
      → is_empty (select (is_unknown reg) c.evidence_ids) ≡ true
      → exists (λ e. not (provenance_complete e)) (spans_of c.evidence_ids reg) ≡ false
      → is_in id c.evidence_ids ≡ true
      → (e : EvidenceSpan F) × (span_of id reg ≡ some e) × (provenance_complete e ≡ true)
  registered_id id known complete m = elim (Option-cases (span_of id reg)) [
    | inl gone ↦ absurd (ground (arith, unregistered id known m))
    | inr (e, there) ↦ (
      e,
      there,
      ground (
        arith,
        span_of-spans_of (λ d. not (provenance_complete d)) c.evidence_ids id e complete m there,
      ),
    )
  ]

-- The verification of a claim against a registry yields a publishable report only if every evidence
-- identifier of the claim is registered with complete provenance and has a quote that stands in its
-- span, a numeric claim agrees with an observed value, in a metric, a unit and a range that the evidence
-- grounds, a claim that needs freshness has a retrieval time, any other claim is asserted by a span or
-- bound to its quotes, and one that needs corroboration has two sources that do not conflict.
pub verify_structured_claim-IsGrounded :
    (fl : Floats) (lower : String → String) (c : Claim fl.F) (reg : Registry fl.F)
    → publishable (verify_structured_claim fl lower c reg) ≡ true
    → IsGrounded fl lower c reg
verify_structured_claim-IsGrounded fl lower c reg h =
    let es = spans_of c.evidence_ids reg in
    let (known, complete, checked, publishes) = passed fl lower c reg h in
    let (quotes, numbers, fresh, semantic) = check_claim-parts fl lower c reg es checked in
    let (ids, right) = quote_error-parts fl lower c reg quotes in
    record {
      registered = λ id m. registered_id fl lower c reg id known complete m;
      quoted_ids = ids;
      quotes =
          wrong_quote-All fl lower c reg c.support_quotes
            (all_in-All (is_unknown reg) c.support_quotes c.evidence_ids
              (λ id m. unregistered fl lower c reg id known m) (ground arith))
            right;
      measured = λ n. (numeric-measured fl lower c reg es numbers n).0;
      in_metric = λ n.
          metric_error-none fl lower c reg c.metric (select is_number es)
            (numeric-measured fl lower c reg es numbers n).1;
      fresh = λ n. ground arith;
      asserted = λ n b. semantic-asserted fl lower c reg es semantic n b;
      corroborated = λ r. released-corroborated fl lower c reg es publishes r;
    }
