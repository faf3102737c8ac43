-- ===== src/Evidence.antt =====
-- models.py: spans of evidence, claims about them and the reports of their verification. A float is a
-- value of a type `F`; texts that the source hashes or reads from the clock are arguments.
pub mod Measures
pub mod Claims
pub mod Verify
pub mod Release
pub mod Gate
pub mod Checked
pub mod Sound
pub mod Ready
pub mod Repeat
pub mod Provenance
pub mod Samples
use Prim.Native.String
use lit_trace.Base.{
  ℕ, String, Bool, true, false, not, Option, none, some, List, [], ◌∷◌, ◌&&◌, ◌||◌, ◌==◌,
  if◌then◌else◌, is_none, join, first_chars,
}

pub data ClaimStatus : Type 0 where
  verified corroborated supported candidate conflicted unknown : ClaimStatus

pub data ClaimKind : Type 0 where
  qualitative numeric comparative causal freshness : ClaimKind

pub data EvidenceSourceKind : Type 0 where
  primary_document structured_table metadata user_supplied : EvidenceSourceKind

pub data Observed (F : Type 0) : Type 0 where
  unobserved : Observed F
  number : F → Observed F
  wording : String → Observed F

pub record EvidenceSpan (F : Type 0) : Type 0 where
  pub paper_id : String
  pub evidence_id : Option String
  pub source_record_id : Option String
  pub section : Option String
  pub page : Option ℕ
  pub table_id : Option String
  pub row_label : Option String
  pub column_label : Option String
  pub snippet : Option String
  pub parser : Option String
  pub parser_version : Option String
  pub content_hash : Option String
  pub captured_at : Option String
  pub source_kind : EvidenceSourceKind
  pub observed_value : Observed F
  pub observed_unit : Option String
  pub observed_value_min : Option F
  pub observed_value_max : Option F
  pub observed_uncertainty : Option F

-- `bool(s)` of an optional text.
abbrev pub holds : Option String → Bool
holds none = false
holds (some s) = not (s == "")

-- `s or ""` and `s or t`
abbrev pub text_of : Option String → String
text_of none = ""
text_of (some s) = s

abbrev pub or_else_text : Option String → String → String
or_else_text none t = t
or_else_text (some s) t = if s == "" then t else s

-- The validator `_populate_provenance`; `hash` is the SHA-256 of the location of the span, and `now` the time.
unfoldable pub populate_provenance :
    {F : Type 0} → (hash now : String) → EvidenceSpan F → EvidenceSpan F
populate_provenance hash now e =
    let content_hash = or_else_text e.content_hash hash in
    record e {
      source_record_id = some (or_else_text e.source_record_id (String.◌++◌ "paper:" e.paper_id));
      content_hash = some content_hash;
      captured_at = some (or_else_text e.captured_at now);
      parser_version =
          some (or_else_text e.parser_version (String.◌++◌ (or_else_text e.parser "manual") ":v1"));
      evidence_id = some (
          or_else_text e.evidence_id
            (join ("ev:" ∷ e.paper_id ∷ ":" ∷ first_chars 16 content_hash ∷ [])));
    }

unfoldable pub has_location : {F : Type 0} → EvidenceSpan F → Bool
has_location e = holds e.snippet || (not (is_none e.page) || (holds e.section || holds e.table_id))

unfoldable pub provenance_complete : {F : Type 0} → EvidenceSpan F → Bool
unfolding has_location
provenance_complete e =
    holds e.evidence_id
    && (holds e.source_record_id
        && (holds e.content_hash
            && (holds e.captured_at && (holds e.parser_version && has_location e))))

pub record Claim (F : Type 0) : Type 0 where
  pub claim_id : Option String
  pub text : String
  pub claim_kind : ClaimKind
  pub evidence_ids : List String
  pub support_quotes : List (String × String)
  pub metric : Option String
  pub expected_value : Option F
  pub expected_unit : Option String
  pub expected_value_min : Option F
  pub expected_value_max : Option F
  pub expected_uncertainty : Option F
  pub requires_corroboration : Bool
  pub requires_freshness : Bool
  pub retrieval_cutoff_at : Option String
  pub critical : Bool
  pub claim_origin : String

pub record VerificationReport (F : Type 0) : Type 0 where
  pub claim_id : Option String
  pub claim : String
  pub status : ClaimStatus
  pub evidence : List (EvidenceSpan F)
  pub semantic_supported : Bool
  pub support_quotes : List (String × String)
  pub freshness_checked_at : Option String
  pub critical : Bool
  pub warnings : List String
  pub missing_requirements : List String

abbrev pub is_publishable : ClaimStatus → Bool
is_publishable verified = true
is_publishable corroborated = true
is_publishable _ = false

abbrev pub is_draftable : ClaimStatus → Bool
is_draftable verified = true
is_draftable corroborated = true
is_draftable supported = true
is_draftable _ = false

-- The properties `publishable` and `draftable`.
unfoldable pub publishable : {F : Type 0} → VerificationReport F → Bool
publishable r = is_publishable r.status

unfoldable pub draftable : {F : Type 0} → VerificationReport F → Bool
draftable r = is_draftable r.status
