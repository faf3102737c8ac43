-- ===== src/Evidence/Checked.antt =====
-- What each check of a claim gives where it finds no error.
use lit_trace.Base.{
  is_empty, ◌≤◌, String, ◌≡◌, refl, true, false, not, Option, none, some, List, ◌&&◌, ◌||◌, arith,
}
use lit_trace.Base.Table.{select, exists}
use lit_trace.Evidence.{EvidenceSpan, Claim, has_location, holds, publishable}
use lit_trace.Evidence.Measures.{
  Floats, Asked, distinct, sources_of, measurement_conflicts, verify_claim,
}
use lit_trace.Evidence.Claims.{
  Registry, is_numeric, is_number, is_relational, keys_of, same_set, wrong_quote, quote_error,
}
use lit_trace.Evidence.Verify.{
  claim_values, matches_a_value, metric_is_grounded, units_are_compatible, ranges_are_compatible,
  numeric_error, metric_error, asserts, is_quote_bound, semantic_error, needs_freshness,
  check_claim, released, asked_of,
}

-- A claim for which corroboration is asked is publishable only by two sources that do not conflict.
verify_claim-corroborated :
    (fl : Floats) (text : String) (es : List (EvidenceSpan fl.F)) (q : Asked)
    → publishable (verify_claim fl text es q) ≡ true
    → q.requires_corroboration ≡ true
    → (2 ≤ distinct (sources_of fl (select has_location es)))
      × (is_empty (measurement_conflicts fl (select has_location es) q.metric) ≡ true)
unfolding verify_claim publishable
verify_claim-corroborated fl text es q h r = ground arith

module _ (fl : Floats) (lower : String → String) (c : Claim fl.F) (reg : Registry fl.F) where
  open fl use {F}

  pub numeric-measured :
      (es : List (EvidenceSpan F))
      → numeric_error fl lower c es ≡ none
      → is_numeric c.claim_kind ≡ true
      → (exists (matches_a_value fl lower (claim_values fl lower c)) (select is_number es) ≡ true)
        × (metric_error fl lower c.metric c (select is_number es) ≡ none)
  unfolding numeric_error
  numeric-measured es h n = ground arith

  pub metric_error-none :
      (o : Option String) (es : List (EvidenceSpan F))
      → metric_error fl lower o c es ≡ none
      → (metric : String) × (o ≡ some metric)
        × (metric_is_grounded fl lower metric c es ≡ true)
        × (units_are_compatible fl lower c es ≡ true)
        × (ranges_are_compatible fl lower c es ≡ true)
  metric_error-none none es h = cc
  metric_error-none (some metric) es h = (metric, refl, ground arith, ground arith, ground arith)

  pub semantic-asserted :
      (es : List (EvidenceSpan F))
      → semantic_error fl lower c es ≡ none
      → is_numeric c.claim_kind ≡ false
      → is_quote_bound fl lower c ≡ false
      → exists (asserts fl lower c) es ≡ true
  unfolding semantic_error
  semantic-asserted es h n b = ground arith

  pub check_claim-parts :
      (es : List (EvidenceSpan F))
      → check_claim fl lower c reg es ≡ none
      → (quote_error lower c reg ≡ none)
        × (numeric_error fl lower c es ≡ none)
        × (needs_freshness fl lower c && not (holds c.retrieval_cutoff_at) ≡ false)
        × (semantic_error fl lower c es ≡ none)
  unfolding check_claim
  check_claim-parts es h = ground arith

  pub quote_error-parts :
      quote_error lower c reg ≡ none
      → (same_set (keys_of c.support_quotes) c.evidence_ids ≡ true)
        × (wrong_quote lower reg c.support_quotes ≡ none)
  unfolding quote_error
  quote_error-parts h = ground arith

  pub released-corroborated :
      (es : List (EvidenceSpan F))
      → publishable (released fl lower c es) ≡ true
      → c.requires_corroboration || is_relational c.claim_kind ≡ true
      → (2 ≤ distinct (sources_of fl (select has_location es)))
        × (is_empty (measurement_conflicts fl (select has_location es) c.metric) ≡ true)
  unfolding released publishable
  released-corroborated es h r = verify_claim-corroborated fl c.text es (asked_of fl lower c) h r
