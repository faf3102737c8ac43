-- ===== src/Evidence/Release.antt =====
-- The registry of evidence, the verification of a workspace's claims and the gate of a release:
-- evidence/claims.py `register_evidence` and `record_claim_verification`, evidence/document_composer.py
-- `_verification_reports` and `_release_blockers`.
use Prim.Native.String
use lit_trace.Base.{
  String, Bool, true, false, Option, none, some, List, [], ◌∷◌, ◌++◌, ◌||◌, ◌==◌, if◌then◌else◌,
  join,
}
use lit_trace.Base.Table.{exists, delete}
use lit_trace.Evidence.{
  ClaimKind, qualitative, numeric, causal, Observed, number, EvidenceSpan, EvidenceSourceKind,
  primary_document, structured_table, metadata, user_supplied, Claim, VerificationReport, holds,
  text_of, or_else_text,
}
use lit_trace.Evidence.Measures.{same_unit}
use lit_trace.Evidence.Claims.{Registry}

abbrev pub kind_text : EvidenceSourceKind → String
kind_text primary_document = "primary_document"
kind_text structured_table = "structured_table"
kind_text metadata = "metadata"
kind_text user_supplied = "user_supplied"

pub record SourceRecord : Type 0 where
  pub source_record_id : String
  pub paper_id : String
  pub source_name : String
  pub content_hash : Option String
  pub retrieved_at : String

-- The fields of `LiteratureWorkspace` that the verification reads and writes.
pub record EvidenceWorkspace (F : Type 0) : Type 0 where
  pub evidence_records : Registry F
  pub source_records : List SourceRecord
  pub claims : List (Claim F)
  pub claim_verification_reports : List (VerificationReport F)

-- `registry[id] = span`
abbrev pub put_span : {F : Type 0} → String → EvidenceSpan F → Registry F → Registry F
put_span id e [] = (id, e) ∷ []
put_span id e (r ∷ rs) = if r.0 == id then (id, e) ∷ rs else r ∷ put_span id e rs

abbrev pub source_record : {F : Type 0} → String → EvidenceSpan F → SourceRecord
source_record id e = record {
  source_record_id = id;
  paper_id = e.paper_id;
  source_name = or_else_text e.parser (kind_text e.source_kind);
  content_hash = e.content_hash;
  retrieved_at = text_of e.captured_at;
}

-- The source of a span, unless it is there or has no identifier.
abbrev pub put_source :
    {F : Type 0} → Option String → EvidenceSpan F → List SourceRecord → List SourceRecord
put_source none e rs = rs
put_source (some id) e rs =
    if id == "" || exists (λ r. r.source_record_id == id) rs
    then rs
    else rs ++ source_record id e ∷ []

abbrev pub register_as :
    {F : Type 0} → Option String → EvidenceSpan F → EvidenceWorkspace F → EvidenceWorkspace F
register_as none e ws = ws
register_as (some id) e ws = if id == "" then ws else record ws {
  evidence_records = put_span id e ws.evidence_records;
  source_records = put_source e.source_record_id e ws.source_records;
}

unfoldable pub register_evidence :
    {F : Type 0} → List (EvidenceSpan F) → EvidenceWorkspace F → EvidenceWorkspace F
register_evidence [] ws = ws
register_evidence (e ∷ es) ws = register_evidence es (register_as e.evidence_id e ws)

abbrev pub same_id : (a b : Option String) → Bool
same_id = same_unit

unfoldable pub record_claim_verification :
    {F : Type 0} → Claim F → VerificationReport F → EvidenceWorkspace F → EvidenceWorkspace F
record_claim_verification c r ws = record ws {
  claims = delete (λ d. same_id d.claim_id c.claim_id) ws.claims ++ c ∷ [];
  claim_verification_reports =
      delete (λ d. same_id d.claim_id c.claim_id) ws.claim_verification_reports ++ r ∷ [];
}

pub record StorylineClaim (F : Type 0) : Type 0 where
  pub claim : String
  pub is_chain : Bool
  pub evidence : List (EvidenceSpan F)

-- A row of a comparison matrix, with what the cell of its evidence says of the range, if there is one.
pub record MatrixRow (F : Type 0) : Type 0 where
  pub name : String
  pub metric : String
  pub value : Observed F
  pub unit : Option String
  pub evidence : EvidenceSpan F
  pub value_min : Option F
  pub value_max : Option F
  pub uncertainty : Option F

abbrev pub ids_of : {F : Type 0} → List (EvidenceSpan F) → List String
ids_of [] = []
ids_of (e ∷ es) = if holds e.evidence_id then text_of e.evidence_id ∷ ids_of es else ids_of es

-- The dict of the snippets: a later span replaces the snippet of its identifier.
abbrev pub put_quote : String → String → List (String × String) → List (String × String)
put_quote k v [] = (k, v) ∷ []
put_quote k v (q ∷ qs) = if q.0 == k then (k, v) ∷ qs else q ∷ put_quote k v qs

abbrev pub quotes_of :
    {F : Type 0} → List (String × String) → List (EvidenceSpan F) → List (String × String)
quotes_of qs [] = qs
quotes_of qs (e ∷ es) =
    quotes_of
      (if holds e.evidence_id then put_quote (text_of e.evidence_id) (text_of e.snippet) qs else qs)
      es

-- `registry.update(…)` with the spans that have an identifier.
abbrev pub put_spans : {F : Type 0} → List (EvidenceSpan F) → Registry F → Registry F
put_spans [] reg = reg
put_spans (e ∷ es) reg =
    put_spans es (elim e.evidence_id [ none ↦ reg | some id ↦ put_span id e reg ])

-- A claim with the defaults of the class; its identifier is a hash of its text and its evidence.
abbrev pub claim_with :
    {F : Type 0}
    → (claim_id : String → List String → String) → (text : String) → ClaimKind
    → List String
    → List (String × String)
    → (critical : Bool) → Claim F
claim_with claim_id text kind ids quotes critical = record {
  claim_id = some (claim_id text ids);
  text = text;
  claim_kind = kind;
  evidence_ids = ids;
  support_quotes = quotes;
  metric = none;
  expected_value = none;
  expected_unit = none;
  expected_value_min = none;
  expected_value_max = none;
  expected_uncertainty = none;
  requires_corroboration = false;
  requires_freshness = false;
  retrieval_cutoff_at = none;
  critical = critical;
  claim_origin = "derived";
}

-- The storyline gives a claim some evidence: with none the source would raise.
abbrev pub storyline_claim :
    {F : Type 0} → (claim_id : String → List String → String) → StorylineClaim F → Claim F
storyline_claim claim_id s =
    record (claim_with claim_id s.claim (if s.is_chain then causal else qualitative)
      (ids_of s.evidence) (quotes_of [] s.evidence) false) { requires_corroboration = true }

abbrev pub number_of : {F : Type 0} → Observed F → Option F
number_of (number v) = some v
number_of _ = none

-- `f" {row.unit}" if row.unit else ""`
abbrev pub unit_suffix : Option String → String
unit_suffix u = if holds u then String.◌++◌ " " (text_of u) else ""

module _ {F : Type 0} (show_value : Observed F → String)
    (claim_id : String → List String → String) where
  abbrev pub row_text : MatrixRow F → String
  row_text r =
      join (
        r.name
        ∷ " reports "
        ∷ r.metric
        ∷ " = "
        ∷ show_value r.value
        ∷ unit_suffix r.unit
        ∷ "."
        ∷ [])

  abbrev pub row_claim : String → MatrixRow F → Claim F
  row_claim id r =
      record (claim_with claim_id (row_text r) numeric (id ∷ [])
        ((id, text_of r.evidence.snippet) ∷ []) false) {
          metric = some r.metric;
          expected_value = number_of r.value;
          expected_unit = r.unit;
        }

abbrev pub row_evidence : {F : Type 0} → MatrixRow F → EvidenceSpan F
row_evidence r = record r.evidence {
  observed_value = r.value;
  observed_unit = r.unit;
  observed_value_min = r.value_min;
  observed_value_max = r.value_max;
  observed_uncertainty = r.uncertainty;
}
