-- ===== src/Evidence/Gate.antt =====
-- evidence/document_composer.py `_verification_reports` and `_release_blockers`: the claims of a report are
-- verified, and the release is blocked by those that are not publishable.
use lit_trace.Base.{
  is_empty, String, Bool, not, List, [], ◌∷◌, ◌++◌, ◌&&◌, ◌||◌, ◌==◌, if◌then◌else◌, join, map,
}
use lit_trace.Base.Table.{exists}
use lit_trace.Evidence.{
  ClaimStatus, verified, corroborated, supported, candidate, conflicted, unknown, Observed,
  EvidenceSpan, Claim, VerificationReport, publishable, holds, text_of,
}
use lit_trace.Evidence.Measures.{Floats, join_with}
use lit_trace.Evidence.Claims.{Registry}
use lit_trace.Evidence.Verify.{verify_structured_claim}
use lit_trace.Evidence.Release.{
  EvidenceWorkspace, StorylineClaim, MatrixRow, register_evidence, put_span, put_spans,
  storyline_claim, row_claim, row_evidence,
}

-- The workspace, the registry and the claims as the loops change them.
pub record Progress (F : Type 0) : Type 0 where
  pub workspace : EvidenceWorkspace F
  pub registry : Registry F
  pub claims : List (Claim F)

unfoldable pub add_storyline :
    {F : Type 0}
    → (claim_id : String → List String → String) → List (StorylineClaim F)
    → Progress F
    → Progress F
unfolding register_evidence
add_storyline claim_id [] p = p
add_storyline claim_id (s ∷ ss) p = add_storyline claim_id ss (record p {
  workspace = register_evidence s.evidence p.workspace;
  registry = put_spans s.evidence p.registry;
  claims = p.claims ++ storyline_claim claim_id s ∷ [];
})

module _ {F : Type 0} (show_value : Observed F → String)
    (claim_id : String → List String → String) where
  abbrev pub add_row : MatrixRow F → Progress F → Progress F
  add_row r p =
      let e = row_evidence r in
      let ws = register_evidence (e ∷ []) p.workspace in
      if holds e.evidence_id
      then record {
        workspace = ws;
        registry = put_span (text_of e.evidence_id) e p.registry;
        claims = p.claims ++ row_claim show_value claim_id (text_of e.evidence_id) r ∷ [];
      }
      else record p { workspace = ws }

  unfoldable pub add_rows : List (MatrixRow F) → Progress F → Progress F
  unfolding register_evidence
  add_rows [] p = p
  add_rows (r ∷ rs) p = add_rows rs (add_row r p)

-- `workspace_evidence_registry`, on the spans that it collects from the parsed papers and the cells.
unfoldable pub start : {F : Type 0} → List (EvidenceSpan F) → EvidenceWorkspace F → Progress F
unfolding register_evidence
start collected ws =
    let ws' = register_evidence collected ws in
    record { workspace = ws'; registry = ws'.evidence_records; claims = ws.claims }

module _ (fl : Floats) (lower : String → String) (show_value : Observed fl.F → String)
    (claim_id : String → List String → String) where
  open fl use {F}

  -- The end of the loops.
  unfoldable pub gathered :
      (collected : List (EvidenceSpan F))
      → List (StorylineClaim F)
      → List (MatrixRow F)
      → EvidenceWorkspace F
      → Progress F
  unfolding add_rows add_storyline start
  gathered collected storyline rows ws =
      add_rows show_value claim_id rows (add_storyline claim_id storyline (start collected ws))

  -- The reports, and the workspace with the claims and with them.
  unfoldable pub verification_reports :
      (collected : List (EvidenceSpan F))
      → List (StorylineClaim F)
      → List (MatrixRow F)
      → EvidenceWorkspace F
      → List (VerificationReport F) × EvidenceWorkspace F
  unfolding gathered verify_structured_claim
  verification_reports collected storyline rows ws =
      let p = gathered collected storyline rows ws in
      let reports = map (λ c. verify_structured_claim fl lower c p.registry) p.claims in
      (reports, record p.workspace { claims = p.claims; claim_verification_reports = reports })

abbrev pub status_text : ClaimStatus → String
status_text verified = "verified"
status_text corroborated = "corroborated"
status_text supported = "supported"
status_text candidate = "candidate"
status_text conflicted = "conflicted"
status_text unknown = "unknown"

abbrev pub no_claim_text : String
no_claim_text = "Release requires at least one verified or corroborated analytic claim."

-- `"; ".join(missing) or "…"`
abbrev pub requirements_text : List String → String
requirements_text missing =
    let joined = join_with "; " missing in
    if joined == "" then "Claim lacks publishable evidence." else joined

abbrev pub blocker_text : {F : Type 0} → VerificationReport F → String
blocker_text r = join (
    "Claim verification blocks release ("
    ∷ status_text r.status
    ∷ "): "
    ∷ r.claim
    ∷ " — "
    ∷ requirements_text r.missing_requirements
    ∷ [])

-- A report that does not block.
abbrev pub passes_gate : {F : Type 0} → (strict_all_claims : Bool) → VerificationReport F → Bool
passes_gate strict r = publishable r || (not strict && not r.critical)

unfoldable pub claim_blockers : {F : Type 0} → Bool → List (VerificationReport F) → List String
unfolding join_with
claim_blockers strict [] = []
claim_blockers strict (r ∷ rs) =
    let rest = claim_blockers strict rs in
    if passes_gate strict r then rest else blocker_text r ∷ rest

unfoldable pub release_blockers :
    {F : Type 0}
    → List (VerificationReport F)
    → (has_analytic_claims strict_all_claims require_publishable_claim : Bool) → List String
unfolding claim_blockers
release_blockers reports has strict require =
    if not has
    then no_claim_text ∷ []
    else if require && not (exists publishable reports)
    then no_claim_text ∷ claim_blockers strict reports
    else claim_blockers strict reports

-- `_release_blockers` as the report calls it; the release is ready if there is none.
unfoldable pub release_ready :
    {F : Type 0}
    → List (VerificationReport F)
    → (strict_all_claims require_publishable_claim : Bool) → Bool
unfolding release_blockers
release_ready reports strict require =
    is_empty (release_blockers reports (not (is_empty reports)) strict require)
