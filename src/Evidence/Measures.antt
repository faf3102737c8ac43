-- ===== src/Evidence/Measures.antt =====
-- models.py `verify_claim` and `_measurement_conflicts`, units.py `normalize_metric_unit`: the status of a
-- claim from spans that can be traced, and when sources disagree.
use lit_trace.Base.Unique.{is_in}
use lit_trace.Base.{
  is_empty, ℕ, suc, String, Bool, true, false, not, Option, none, some, List, [], ◌∷◌, ◌&&◌, ◌||◌,
  ◌==◌, if◌then◌else◌, join, ltb, leb,
}
use lit_trace.Base.Table.{select}
use lit_trace.Evidence.{
  ClaimStatus, verified, corroborated, supported, candidate, conflicted, unknown, Observed, number,
  EvidenceSpan, VerificationReport, has_location, holds, or_else_text,
}

-- The factors of the table of units.
pub data Factor : Type 0 where
  hundred tenth thousand one : Factor

-- What the code uses of floats: the two `isclose`, `==`, the test for 0, the products with the factors,
-- the numbers in a text, and `:g`.
pub record Floats : Type 1 where
  pub F : Type 0
  pub is_close : F → F → Bool
  pub is_near : F → F → Bool
  pub equal : F → F → Bool
  pub is_zero : F → Bool
  pub times : F → Factor → F
  pub numbers_in : String → List F
  pub format : F → String

abbrev pub unit_row : String → String → Option (String × Factor)
unit_row metric unit =
    if metric == "conductivity" && (unit == "S/cm" || unit == "S cm-1")
    then some ("S/m", hundred)
    else if metric == "conductivity" && unit == "mS/cm"
    then some ("S/m", tenth)
    else if (metric == "response time" || metric == "recovery time") && unit == "s"
    then some ("ms", thousand)
    else if (metric == "young's modulus" || metric == "tensile strength") && unit == "GPa"
    then some ("MPa", thousand)
    else if metric == "capacity" && unit == "mAh g-1"
    then some ("mAh/g", one)
    else none

abbrev pub same_unit : (a b : Option String) → Bool
same_unit none none = true
same_unit (some s) (some t) = s == t
same_unit _ _ = false

-- `len(set(xs))` of texts and of units.
abbrev pub distinct : List String → ℕ
distinct [] = 0
distinct (x ∷ xs) = let rest = distinct xs in if is_in x xs then rest else suc rest

abbrev pub unit_in : Option String → List (Option String) → Bool
unit_in x [] = false
unit_in x (y ∷ ys) = same_unit y x || unit_in x ys

abbrev pub distinct_units : List (Option String) → ℕ
distinct_units [] = 0
distinct_units (x ∷ xs) = let rest = distinct_units xs in if unit_in x xs then rest else suc rest

-- `separator.join(xs)`
unfoldable pub join_with : String → List String → String
join_with sep [] = ""
join_with sep (x ∷ xs) = if is_empty xs then x else join (x ∷ sep ∷ join_with sep xs ∷ [])

-- The keyword arguments of `verify_claim`.
pub record Asked : Type 0 where
  pub requires_corroboration : Bool
  pub metric : Option String
  pub claim_id : Option String
  pub semantic_supported : Bool
  pub support_quotes : List (String × String)
  pub requires_freshness : Bool
  pub freshness_checked_at : Option String

module _ (fl : Floats) where
  open fl use {F, is_near, times, format}

  -- The value and the unit that `normalize_metric_unit` gives for a number.
  unfoldable pub normalize_metric_unit : String → F → Option String → F × Option String
  normalize_metric_unit metric value none = (value, none)
  normalize_metric_unit metric value (some unit) = elim (unit_row metric unit) [
    | none ↦ (value, some unit)
    | some (target, factor) ↦ (times value factor, some target)
  ]

  unfoldable pub normalize_observed_measurement :
      Option String → F → Option String → F × Option String
  unfolding normalize_metric_unit
  normalize_observed_measurement none value unit = (value, unit)
  normalize_observed_measurement (some metric) value unit = normalize_metric_unit metric value unit

  -- `span.source_record_id or span.paper_id`
  abbrev pub source_of : EvidenceSpan F → String
  source_of e = or_else_text e.source_record_id e.paper_id

  abbrev pub Observation : Type 0
  Observation = String × F × Option String

  abbrev pub observe :
      Option String
      → Observed F
      → Option String
      → EvidenceSpan F
      → List Observation
      → List Observation
  observe metric (number v) unit e rest =
      let n = normalize_observed_measurement metric v unit in (source_of e, n.0, n.1) ∷ rest
  observe metric _ unit e rest = rest

  unfoldable pub observations : Option String → List (EvidenceSpan F) → List Observation
  unfolding normalize_observed_measurement
  observations metric [] = []
  observations metric (e ∷ es) =
      observe metric e.observed_value e.observed_unit e (observations metric es)

  abbrev pub sources_in : List Observation → List String
  sources_in [] = []
  sources_in (o ∷ os) = o.0 ∷ sources_in os

  abbrev pub units_in : List Observation → List (Option String)
  units_in [] = []
  units_in (o ∷ os) = o.2 ∷ units_in os

  abbrev pub formatted : List Observation → List String
  formatted [] = []
  formatted (o ∷ os) = format o.1 ∷ formatted os

  -- `not isclose(value, baseline, …)` for some observation.
  abbrev pub some_far : F → List Observation → Bool
  some_far baseline [] = false
  some_far baseline (o ∷ os) = not (is_near o.1 baseline) || some_far baseline os

  abbrev pub disagreement : List Observation → Option String → String
  disagreement os unit = join (
      "Independent evidence disagrees on the measured value ("
      ∷ join_with ", " (formatted os)
      ∷ " "
      ∷ or_else_text unit "unitless"
      ∷ ")."
      ∷ [])

  -- The conflicts among observations; the first one is the baseline.
  unfoldable pub conflicts_in : List Observation → List String
  unfolding join_with
  conflicts_in [] = []
  conflicts_in (o ∷ os) =
      if ltb (distinct (sources_in (o ∷ os))) 2
      then []
      else if ltb 1 (distinct_units (units_in (o ∷ os)))
      then "Independent evidence uses incompatible measurement units." ∷ []
      else if some_far o.1 os
      then disagreement (o ∷ os) o.2 ∷ []
      else []

  abbrev pub measurement_conflicts : List (EvidenceSpan F) → Option String → List String
  measurement_conflicts es metric = conflicts_in (observations metric es)

  -- A report with the defaults of the class.
  abbrev pub report :
      Asked → String → ClaimStatus → List (EvidenceSpan F) → List String → VerificationReport F
  report q claim status evidence missing = record {
    claim_id = q.claim_id;
    claim = claim;
    status = status;
    evidence = evidence;
    semantic_supported = false;
    support_quotes = [];
    freshness_checked_at = none;
    critical = true;
    warnings = [];
    missing_requirements = missing;
  }

  abbrev pub sources_of : List (EvidenceSpan F) → List String
  sources_of [] = []
  sources_of (e ∷ es) = source_of e ∷ sources_of es

  -- `_measurement_conflicts(…) if requires_corroboration else []`
  abbrev pub conflicts_asked : Asked → List (EvidenceSpan F) → List String
  conflicts_asked q es = if q.requires_corroboration then measurement_conflicts es q.metric else []

  abbrev pub freshness_missing : Asked → List String
  freshness_missing q =
      if q.requires_freshness && not (holds q.freshness_checked_at)
      then "Freshness-sensitive claim needs a retrieval cutoff time." ∷ []
      else []

  unfoldable pub verify_claim : String → List (EvidenceSpan F) → Asked → VerificationReport F
  unfolding conflicts_in observations
  verify_claim claim evidence q =
      let traceable = select has_location evidence in
      if is_empty evidence
      then report q claim unknown [] ("No evidence spans were provided." ∷ [])
      else if is_empty traceable
      then report q claim candidate evidence
          ("Evidence needs a page, section, table, or quoted snippet." ∷ [])
      else if not (is_empty (conflicts_asked q traceable))
      then record (report q claim conflicted traceable
          ("Independent evidence must agree before this claim can be released." ∷ [])) {
            semantic_supported = q.semantic_supported;
            support_quotes = q.support_quotes;
            warnings = conflicts_asked q traceable;
          }
      else if leb 2 (distinct (sources_of traceable))
      then record (report q claim corroborated traceable []) {
        semantic_supported = q.semantic_supported;
        support_quotes = q.support_quotes;
        freshness_checked_at = q.freshness_checked_at;
      }
      else if q.requires_corroboration
      then report q claim supported traceable
          ("A second independent source is required for corroboration." ∷ [])
      else record (report q claim (if is_empty (freshness_missing q) then verified else supported)
          traceable (freshness_missing q)) {
            semantic_supported = q.semantic_supported;
            support_quotes = q.support_quotes;
            freshness_checked_at = q.freshness_checked_at;
          }
