-- ===== src/Evidence/Ready.antt =====
-- What a report that is ready for release has verified.
use lit_trace.Base.{
  is_empty, String, ◌≡◌, Bool, true, List, [], ◌∷◌, ◌||◌, arith, Bool-cases, inl, inr, map,
}
use lit_trace.Base.All.{All, Any}
use lit_trace.Base.Table.{exists}
use lit_trace.Evidence.{Observed, EvidenceSpan, Claim, VerificationReport, publishable}
use lit_trace.Evidence.Measures.{Floats}
use lit_trace.Evidence.Claims.{Registry}
use lit_trace.Evidence.Verify.{verify_structured_claim, released}
use lit_trace.Evidence.Sound.{IsGrounded, verify_structured_claim-IsGrounded}
use lit_trace.Evidence.Release.{EvidenceWorkspace, StorylineClaim, MatrixRow}
use lit_trace.Evidence.Gate.{
  gathered, verification_reports, passes_gate, claim_blockers, release_blockers, release_ready,
}

module _ (fl : Floats) (lower : String → String) (reg : Registry fl.F) where
  open fl use {F}

  critical-verify : (c : Claim F) → (verify_structured_claim fl lower c reg).critical ≡ c.critical
  unfolding verify_structured_claim released
  critical-verify c = ground arith

  gate-publishable :
      (strict : Bool) (c : Claim F)
      → passes_gate strict (verify_structured_claim fl lower c reg) ≡ true
      → strict || c.critical ≡ true
      → publishable (verify_structured_claim fl lower c reg) ≡ true
  gate-publishable strict c passes r = ground (arith, critical-verify c)

  claim_blockers-All :
      (strict : Bool) (cs : List (Claim F))
      → is_empty (claim_blockers strict (map (λ c. verify_structured_claim fl lower c reg) cs))
        ≡ true
      → All (λ c. strict || c.critical ≡ true → IsGrounded fl lower c reg) cs
  unfolding claim_blockers
  claim_blockers-All strict [] h = tt
  claim_blockers-All strict (c ∷ cs) h =
      let gate = passes_gate strict (verify_structured_claim fl lower c reg) in
      elim (Bool-cases gate) [
        | inl passes ↦ (
          λ r.
              verify_structured_claim-IsGrounded fl lower c reg
                (gate-publishable strict c passes r),
          claim_blockers-All strict cs (ground arith),
        )
        | inr blocks ↦ absurd (ground arith)
      ]

  exists-Any :
      (cs : List (Claim F))
      → exists publishable (map (λ c. verify_structured_claim fl lower c reg) cs) ≡ true
      → Any (λ c. IsGrounded fl lower c reg) cs
  unfolding exists
  exists-Any [] h = cc
  exists-Any (c ∷ cs) h = elim (Bool-cases (publishable (verify_structured_claim fl lower c reg))) [
    | inl out ↦ inl (verify_structured_claim-IsGrounded fl lower c reg out)
    | inr kept ↦ inr (exists-Any cs (ground arith))
  ]

ready-parts :
    {F : Type 0} (reports : List (VerificationReport F)) (strict require : Bool)
    → release_ready reports strict require ≡ true
    → (is_empty (claim_blockers strict reports) ≡ true)
      × (require ≡ true → exists publishable reports ≡ true)
unfolding release_ready release_blockers
ready-parts reports strict require h = (ground arith, λ r. ground arith)

-- A report that is ready for release has verified its claims: every claim that it stores for the
-- workspace and that is critical, or every claim at all under the strict policy, is grounded in the
-- registry of evidence that the report gathered, and where a publishable claim is required some claim is.
pub release_ready-IsGrounded :
    (fl : Floats) (lower : String → String) (show_value : Observed fl.F → String)
    (claim_id : String → List String → String) (collected : List (EvidenceSpan fl.F))
    (storyline : List (StorylineClaim fl.F)) (rows : List (MatrixRow fl.F))
    (ws : EvidenceWorkspace fl.F) (strict require : Bool)
    → release_ready
        (verification_reports fl lower show_value claim_id collected storyline rows ws).0
        strict
        require
      ≡ true
    → All
        (λ c.
          strict || c.critical ≡ true
          → IsGrounded fl lower c
              (gathered fl lower show_value claim_id collected storyline rows ws).registry)
        (verification_reports fl lower show_value claim_id collected storyline rows ws).1.claims
      × (require ≡ true
          → Any
              (λ c.
                IsGrounded fl lower c
                  (gathered fl lower show_value claim_id collected storyline rows ws).registry)
              (verification_reports fl lower show_value claim_id collected storyline rows
                ws).1.claims)
unfolding verification_reports
release_ready-IsGrounded fl lower show_value claim_id collected storyline rows ws strict require h =
    let p = gathered fl lower show_value claim_id collected storyline rows ws in
    let reports = map (λ c. verify_structured_claim fl lower c p.registry) p.claims in
    let (clear, some_published) = ready-parts reports strict require h in
    (
      claim_blockers-All fl lower p.registry strict p.claims clear,
      λ r. exists-Any fl lower p.registry p.claims (some_published r),
    )
