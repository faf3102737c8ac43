-- ===== src/Evidence/Samples.antt =====
-- The theorems about evidence at one numeric claim, with whole numbers in the place of floats.
use lit_trace.Base.{
  ℕ, ◌+◌, ◌*◌, String, ◌≡◌, refl, true, false, none, some, List, [], ◌∷◌, ◌||◌, nat_eq, length,
}
use lit_trace.Base.All.{All, Any}
use lit_trace.Base.Words.{is_blank, is_space, has_text, split_from}
use lit_trace.Base.Table.{select, exists}
use lit_trace.Evidence.{
  numeric, number, EvidenceSpan, structured_table, Claim, publishable, provenance_complete,
  has_location,
}
use lit_trace.Evidence.Measures.{
  Floats, Factor, hundred, tenth, thousand, one, normalize_metric_unit, conflicts_in, observations,
  verify_claim,
}
use lit_trace.Evidence.Claims.{normalize, quoted_in, wrong_quote, quote_error, spans_of}
use lit_trace.Evidence.Verify.{
  metric_is_grounded, units_are_compatible, ranges_are_compatible, numeric_error, semantic_error,
  released, check_claim, verify_structured_claim,
}
use lit_trace.Evidence.Sound.{IsGrounded, verify_structured_claim-IsGrounded}
use lit_trace.Evidence.Release.{EvidenceWorkspace, MatrixRow, register_evidence}
use lit_trace.Evidence.Gate.{
  gathered, start, add_rows, add_storyline, verification_reports, claim_blockers, release_blockers,
  release_ready,
}
use lit_trace.Evidence.Ready.{release_ready-IsGrounded}
use lit_trace.Evidence.Repeat.{report_times, claims-report_times}

abbrev scaled : ℕ → Factor → ℕ
scaled n hundred = 100 * n
scaled n tenth = n
scaled n thousand = 1000 * n
scaled n one = n

abbrev whole : Floats
whole = record {
  F = ℕ;
  is_close = nat_eq;
  is_near = nat_eq;
  equal = nat_eq;
  is_zero = λ n. nat_eq n 0;
  times = scaled;
  numbers_in = λ s. [];
  format = λ n. "n";
}

abbrev as_written : String → String
as_written s = s

abbrev make_id : String → List String → String
make_id text ids = text

abbrev shown : {A : Type 0} → A → String
shown v = "42"

abbrev bare : EvidenceSpan ℕ
bare = record {
  paper_id = "p1";
  evidence_id = some "e1";
  source_record_id = none;
  section = none;
  page = some 3;
  table_id = none;
  row_label = none;
  column_label = none;
  snippet = some "a capacity of 42";
  parser = none;
  parser_version = none;
  content_hash = none;
  captured_at = none;
  source_kind = structured_table;
  observed_value = number 42;
  observed_unit = some "mAh/g";
  observed_value_min = none;
  observed_value_max = none;
  observed_uncertainty = none;
}

abbrev span : EvidenceSpan ℕ
span = record bare {
  source_record_id = some "paper:p1";
  parser_version = some "manual:v1";
  content_hash = some "h";
  captured_at = some "t";
}

abbrev row : MatrixRow ℕ
row = record {
  name = "p1";
  metric = "capacity";
  value = number 42;
  unit = some "mAh/g";
  evidence = span;
  value_min = none;
  value_max = none;
  uncertainty = none;
}

abbrev claim : Claim ℕ
claim = record {
  claim_id = some "c1";
  text = "p1 reports capacity = 42.";
  claim_kind = numeric;
  evidence_ids = "e1" ∷ [];
  support_quotes = ("e1", "capacity of 42") ∷ [];
  metric = some "capacity";
  expected_value = some 42;
  expected_unit = some "mAh g-1";
  expected_value_min = none;
  expected_value_max = none;
  expected_uncertainty = none;
  requires_corroboration = false;
  requires_freshness = false;
  retrieval_cutoff_at = none;
  critical = true;
  claim_origin = "derived";
}

abbrev new_workspace : EvidenceWorkspace ℕ
new_workspace = record {
  evidence_records = [];
  source_records = [];
  claims = claim ∷ [];
  claim_verification_reports = [];
}

claim_publishes :
    publishable (verify_structured_claim whole as_written claim (("e1", span) ∷ [])) ≡ true
unfolding verify_structured_claim publishable spans_of provenance_complete check_claim quote_error
    numeric_error semantic_error released verify_claim wrong_quote quoted_in normalize has_text
    split_from is_blank is_space select exists has_location normalize_metric_unit conflicts_in
    observations metric_is_grounded units_are_compatible ranges_are_compatible
claim_publishes = refl

verify-IsGrounded_example : IsGrounded whole as_written claim (("e1", span) ∷ [])
verify-IsGrounded_example =
    verify_structured_claim-IsGrounded whole as_written claim (("e1", span) ∷ []) claim_publishes

report_ready :
    release_ready
      (verification_reports whole as_written shown make_id
        (span ∷ [])
        []
        (row ∷ [])
        new_workspace).0
      false
      true
    ≡ true
unfolding release_ready release_blockers claim_blockers verification_reports gathered start add_rows
    add_storyline register_evidence verify_structured_claim publishable spans_of provenance_complete
    check_claim quote_error numeric_error semantic_error released verify_claim wrong_quote quoted_in
    normalize has_text split_from is_blank is_space select exists has_location normalize_metric_unit
    conflicts_in observations metric_is_grounded units_are_compatible ranges_are_compatible
report_ready = refl

release_ready-IsGrounded_example :
    All
      (λ c.
        false || c.critical ≡ true
        → IsGrounded whole as_written c
            (gathered whole as_written shown make_id
              (span ∷ [])
              []
              (row ∷ [])
              new_workspace).registry)
      (verification_reports whole as_written shown make_id
        (span ∷ [])
        []
        (row ∷ [])
        new_workspace).1.claims
    × (true ≡ true
        → Any
            (λ c.
              IsGrounded whole as_written c
                (gathered whole as_written shown make_id
                  (span ∷ [])
                  []
                  (row ∷ [])
                  new_workspace).registry)
            (verification_reports whole as_written shown make_id
              (span ∷ [])
              []
              (row ∷ [])
              new_workspace).1.claims)
release_ready-IsGrounded_example =
    release_ready-IsGrounded whole as_written shown make_id (span ∷ []) [] (row ∷ []) new_workspace
      false true report_ready

claims-report_times_example :
    length (report_times whole as_written shown make_id [] [] (row ∷ []) 3 new_workspace).claims
    ≡ 1 + 3 * 1
claims-report_times_example =
    claims-report_times whole as_written shown make_id [] [] (row ∷ []) 3 new_workspace (refl, tt)
