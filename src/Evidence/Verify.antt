-- ===== src/Evidence/Verify.antt =====
-- evidence/claims.py `verify_structured_claim`: the checks of a claim in their order, and the report.
use lit_trace.Base.{
  is_empty, String, Bool, true, false, not, Option, none, some, List, [], ◌∷◌, ◌&&◌, ◌||◌, ◌==◌,
  if◌then◌else◌, is_none, join,
}
use lit_trace.Base.Words.{same_codes}
use lit_trace.Base.Table.{select, exists}
use lit_trace.Base.Sort.{sort_by}
use lit_trace.Base.Words.{text_le}
use lit_trace.Evidence.{
  ClaimStatus, candidate, supported, Observed, number, EvidenceSpan, Claim, VerificationReport,
  provenance_complete, holds, text_of,
}
use lit_trace.Evidence.Measures.{
  Floats, Asked, same_unit, join_with, normalize_metric_unit, verify_claim,
}
use lit_trace.Evidence.Claims.{
  Registry, is_unknown, spans_of, is_numeric, is_freshness, is_qualitative, is_relational,
  is_number, blocked_claim, normalize, quoted_in, quote_error,
}

module _ (fl : Floats) (lower : String → String) where
  open fl use {F, is_close, equal, is_zero, numbers_in}

  abbrev pub claim_values : Claim F → List F
  claim_values c = elim c.expected_value [ some v ↦ v ∷ [] | none ↦ numbers_in c.text ]

  -- `isclose(float(span.observed_value), value, …)`
  abbrev pub close_to : Observed F → F → Bool
  close_to (number v) w = is_close v w
  close_to _ w = false

  abbrev pub matches_a_value : List F → EvidenceSpan F → Bool
  matches_a_value vs e = exists (close_to e.observed_value) vs

  -- `normalized_metric in …` and the column label.
  abbrev pub names_metric : String → EvidenceSpan F → Bool
  names_metric metric e =
      quoted_in lower metric (text_of e.snippet)
      || same_codes (normalize lower metric) (normalize lower (text_of e.column_label))

  unfoldable pub metric_is_grounded : String → Claim F → List (EvidenceSpan F) → Bool
  unfolding quoted_in normalize
  metric_is_grounded metric c es = quoted_in lower metric c.text || exists (names_metric metric) es

  -- `claim.expected_value or span.observed_value`
  abbrev pub expected_or : Option F → F → F
  expected_or none v = v
  expected_or (some w) v = if is_zero w then v else w

  -- The values agree after both were brought to the normal unit of the metric.
  abbrev pub same_measure : (a b : F × Option String) → Bool
  same_measure a b = same_unit a.1 b.1 && is_close a.0 b.0

  abbrev pub agrees_in : String → Claim F → Observed F → Option String → Bool
  agrees_in unit c (number v) (some u) =
      same_measure
        (normalize_metric_unit fl (text_of c.metric) (expected_or c.expected_value v) (some unit))
        (normalize_metric_unit fl (text_of c.metric) v (some u))
  agrees_in unit c _ _ = false

  unfoldable pub units_are_compatible : Claim F → List (EvidenceSpan F) → Bool
  unfolding normalize_metric_unit
  units_are_compatible c es = elim c.expected_unit [
    | none ↦ true
    | some unit ↦ exists (λ e. agrees_in unit c e.observed_value e.observed_unit) es
  ]

  -- `expected is None or expected == observed`
  abbrev pub meets : (expected observed : Option F) → Bool
  meets none o = true
  meets (some v) (some w) = equal v w
  meets (some v) none = false

  abbrev pub in_range : Claim F → EvidenceSpan F → Bool
  in_range c e =
      meets c.expected_value_min e.observed_value_min
      && (meets c.expected_value_max e.observed_value_max
          && meets c.expected_uncertainty e.observed_uncertainty)

  unfoldable pub ranges_are_compatible : Claim F → List (EvidenceSpan F) → Bool
  ranges_are_compatible c es =
      if is_none c.expected_value_min
        && (is_none c.expected_value_max && is_none c.expected_uncertainty)
      then true
      else exists (in_range c) es

  -- The checks that follow the metric's name.
  abbrev pub metric_error : Option String → Claim F → List (EvidenceSpan F) → Option String
  metric_error none c observed = some "Numeric claim requires a metric name."
  metric_error (some metric) c observed =
      if not (metric_is_grounded metric c observed)
      then some "Numeric claim metric is not present in the supported evidence."
      else if not (units_are_compatible c observed)
      then some "Numeric claim unit is incompatible with registered evidence."
      else if not (ranges_are_compatible c observed)
      then some "Numeric claim range or uncertainty does not match registered evidence."
      else none

  unfoldable pub numeric_error : Claim F → List (EvidenceSpan F) → Option String
  unfolding metric_is_grounded units_are_compatible ranges_are_compatible
  numeric_error c es =
      let observed = select is_number es in
      if not (is_numeric c.claim_kind)
      then none
      else if is_empty observed
      then some "Numeric claim requires structured observed values."
      else if is_empty (claim_values c)
      then some "Numeric claim requires a machine-readable value."
      else if not (exists (matches_a_value (claim_values c)) observed)
      then some "Numeric value in the claim does not match registered evidence."
      else metric_error c.metric c observed

  abbrev pub asserts : Claim F → EvidenceSpan F → Bool
  asserts c e = quoted_in lower c.text (text_of e.snippet)

  -- A claim that was bound to its quotes by construction.
  abbrev pub is_quote_bound : Claim F → Bool
  is_quote_bound c =
      c.claim_origin == "llm_quote_bound"
      && (is_qualitative c.claim_kind && not c.requires_corroboration)

  unfoldable pub semantic_error : Claim F → List (EvidenceSpan F) → Option String
  unfolding quoted_in
  semantic_error c es =
      if is_numeric c.claim_kind
      then none
      else if is_quote_bound c
      then none
      else if exists (asserts c) es
      then none
      else some (
          join (
            "Automatic semantic verification requires an exact asserted quote; "
            ∷ "paraphrased qualitative, comparative, causal, and freshness claims remain draft-only."
            ∷ []))

  abbrev pub needs_freshness : Claim F → Bool
  needs_freshness c = c.requires_freshness || is_freshness c.claim_kind

  abbrev pub asked_of : Claim F → Asked
  asked_of c = record {
    requires_corroboration = c.requires_corroboration || is_relational c.claim_kind;
    metric = c.metric;
    claim_id = c.claim_id;
    semantic_supported = true;
    support_quotes = c.support_quotes;
    requires_freshness = needs_freshness c;
    freshness_checked_at = c.retrieval_cutoff_at;
  }

  -- The report of a claim that passed all the checks.
  unfoldable pub released : Claim F → List (EvidenceSpan F) → VerificationReport F
  unfolding verify_claim
  released c es = record (verify_claim fl c.text es (asked_of c)) { critical = c.critical }

  -- The checks after the identifiers and the provenance, with the status of a claim that fails one.
  unfoldable pub check_claim :
      Claim F → Registry F → List (EvidenceSpan F) → Option (String × ClaimStatus)
  unfolding quote_error numeric_error semantic_error
  check_claim c reg es = elim (quote_error lower c reg) [
    | some e ↦ some (e, candidate)
    | none ↦ elim (numeric_error c es) [
      | some e ↦ some (e, candidate)
      | none ↦
          if needs_freshness c && not (holds c.retrieval_cutoff_at)
          then some ("Freshness-sensitive claim needs a retrieval cutoff time.", supported)
          else elim (semantic_error c es) [ some e ↦ some (e, supported) | none ↦ none ]
    ]
  ]

  unfoldable pub verify_structured_claim : Claim F → Registry F → VerificationReport F
  unfolding check_claim spans_of released provenance_complete join_with
  verify_structured_claim c reg =
      let unknown = select (is_unknown reg) c.evidence_ids in
      let es = spans_of c.evidence_ids reg in
      if not (is_empty unknown)
      then blocked_claim c []
          (join ("Unknown evidence IDs: " ∷ join_with ", " (sort_by text_le unknown) ∷ []))
          candidate
      else if exists (λ e. not (provenance_complete e)) es
      then blocked_claim c es "Evidence provenance is incomplete." candidate
      else elim (check_claim c reg es) [
        | some (requirement, status) ↦ blocked_claim c es requirement status
        | none ↦ released c es
      ]
