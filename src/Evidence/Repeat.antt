-- ===== src/Evidence/Repeat.antt =====
-- What a further report does to the claims of a workspace.
use lit_trace.Base.{
  ℕ, zero, suc, ◌+◌, ◌*◌, String, ◌≡◌, true, List, [], ◌∷◌, ◌++◌, arith, length, length-append,
}
use lit_trace.Base.All.{All}
use lit_trace.Evidence.{Observed, EvidenceSpan, holds}
use lit_trace.Evidence.Measures.{Floats}
use lit_trace.Evidence.Release.{
  EvidenceWorkspace, StorylineClaim, MatrixRow, register_evidence, put_spans, storyline_claim,
}
use lit_trace.Evidence.Gate.{
  Progress, gathered, verification_reports, add_storyline, add_rows, add_row, start,
}

module _ {F : Type 0} (show_value : Observed F → String)
    (claim_id : String → List String → String) where
  claims-add_storyline :
      (ss : List (StorylineClaim F)) (p : Progress F)
      → length (add_storyline claim_id ss p).claims ≡ length p.claims + length ss
  unfolding add_storyline
  claims-add_storyline [] p = omega arith
  claims-add_storyline (s ∷ ss) p =
      let p' = record p {
        workspace = register_evidence s.evidence p.workspace;
        registry = put_spans s.evidence p.registry;
        claims = p.claims ++ storyline_claim claim_id s ∷ [];
      } in
      omega (
        arith,
        claims-add_storyline ss p',
        length-append p.claims (storyline_claim claim_id s ∷ []),
      )

  claims-add_row :
      (r : MatrixRow F) (p : Progress F)
      → holds r.evidence.evidence_id ≡ true
      → length (add_row show_value claim_id r p).claims ≡ length p.claims + 1
  claims-add_row r p h = rw h (length-append p.claims _)

  claims-add_rows :
      (rs : List (MatrixRow F)) (p : Progress F)
      → All (λ r. holds r.evidence.evidence_id ≡ true) rs
      → length (add_rows show_value claim_id rs p).claims ≡ length p.claims + length rs
  unfolding add_rows
  claims-add_rows [] p h = omega arith
  claims-add_rows (r ∷ rs) p h =
      omega
        (arith, claims-add_rows rs (add_row show_value claim_id r p) h.1, claims-add_row r p h.0)

module _ (fl : Floats) (lower : String → String) (show_value : Observed fl.F → String)
    (claim_id : String → List String → String) (collected : List (EvidenceSpan fl.F))
    (storyline : List (StorylineClaim fl.F)) (rows : List (MatrixRow fl.F)) where
  open fl use {F}

  -- `n` reports, one after another.
  pub report_times : ℕ → EvidenceWorkspace F → EvidenceWorkspace F
  unfolding verification_reports
  report_times zero ws = ws
  report_times (suc n) ws =
      report_times n
        (verification_reports fl lower show_value claim_id collected storyline rows ws).1

  claims-verification_reports :
      (ws : EvidenceWorkspace F)
      → All (λ r. holds r.evidence.evidence_id ≡ true) rows
      → length
          (verification_reports fl lower show_value claim_id collected storyline rows ws).1.claims
        ≡ length ws.claims + (length storyline + length rows)
  unfolding verification_reports gathered start
  claims-verification_reports ws h =
      let p = start collected ws in
      omega (
        arith,
        claims-add_rows show_value claim_id rows (add_storyline claim_id storyline p) h,
        claims-add_storyline show_value claim_id storyline p,
      )

  -- Each report of a workspace adds the claims of its storyline and of its matrix rows to the stored
  -- claims once more, where the evidence of the rows has identifiers: `n` reports of the same
  -- workspace add `n` times as many claims as one.
  pub claims-report_times :
      (n : ℕ) (ws : EvidenceWorkspace F)
      → All (λ r. holds r.evidence.evidence_id ≡ true) rows
      → length (report_times n ws).claims ≡ length ws.claims + n * (length storyline + length rows)
  unfolding report_times
  claims-report_times zero ws h = omega arith
  claims-report_times (suc n) ws h =
      let next =
        (verification_reports fl lower show_value claim_id collected storyline rows ws).1 in
      grind (arith, claims-report_times n next h, claims-verification_reports ws h)
