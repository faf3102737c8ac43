-- ===== src/Evidence/Claims.antt =====
-- evidence/claims.py: the registry of evidence and the verification of structured claims against it. The
-- lower case of a text is the language's: a parameter.
use lit_trace.Base.Unique.{is_in}
use lit_trace.Base.{
  ℕ, String, Bool, true, false, not, Option, none, some, List, [], ◌∷◌, ◌&&◌, ◌||◌, ◌==◌,
  if◌then◌else◌, is_none, join,
}
use lit_trace.Base.Words.{codes, has_text, is_blank, split_from, spaced}
use lit_trace.Evidence.{
  ClaimStatus, ClaimKind, qualitative, numeric, comparative, causal, freshness, number,
  EvidenceSpan, Claim, VerificationReport, text_of,
}

abbrev pub is_numeric : ClaimKind → Bool
is_numeric numeric = true
is_numeric _ = false

abbrev pub is_freshness : ClaimKind → Bool
is_freshness freshness = true
is_freshness _ = false

abbrev pub is_qualitative : ClaimKind → Bool
is_qualitative qualitative = true
is_qualitative _ = false

-- `claim_kind in {COMPARATIVE, CAUSAL}`
abbrev pub is_relational : ClaimKind → Bool
is_relational comparative = true
is_relational causal = true
is_relational _ = false

abbrev pub Registry : Type 0 → Type 0
Registry F = List (String × EvidenceSpan F)

abbrev pub span_of : {F : Type 0} → String → Registry F → Option (EvidenceSpan F)
span_of id [] = none
span_of id (r ∷ rs) = if r.0 == id then some r.1 else span_of id rs

-- The identifiers that the registry does not have, and the spans of those that it has.
abbrev pub is_unknown : {F : Type 0} → Registry F → String → Bool
is_unknown reg id = is_none (span_of id reg)

unfoldable pub spans_of : {F : Type 0} → List String → Registry F → List (EvidenceSpan F)
spans_of [] reg = []
spans_of (id ∷ ids) reg = elim (span_of id reg) [
  | none ↦ spans_of ids reg
  | some e ↦ e ∷ spans_of ids reg
]

abbrev pub keys_of : List (String × String) → List String
keys_of [] = []
keys_of (q ∷ qs) = q.0 ∷ keys_of qs

abbrev pub all_in : (xs ys : List String) → Bool
all_in [] ys = true
all_in (x ∷ xs) ys = is_in x ys && all_in xs ys

-- `set(xs) == set(ys)`
abbrev pub same_set : (xs ys : List String) → Bool
same_set xs ys = all_in xs ys && all_in ys xs

abbrev pub is_number : {F : Type 0} → EvidenceSpan F → Bool
is_number e = elim e.observed_value [ number v ↦ true | _ ↦ false ]

abbrev pub blocked_claim :
    {F : Type 0} → Claim F → List (EvidenceSpan F) → String → ClaimStatus → VerificationReport F
blocked_claim c evidence requirement status = record {
  claim_id = c.claim_id;
  claim = c.text;
  status = status;
  evidence = evidence;
  semantic_supported = false;
  support_quotes = c.support_quotes;
  freshness_checked_at = none;
  critical = c.critical;
  warnings = [];
  missing_requirements = requirement ∷ [];
}

module _ (lower : String → String) where
  -- `_normalize`, as code points.
  unfoldable pub normalize : String → List ℕ
  normalize s = spaced (split_from [] (codes (lower s)))

  -- `_normalize(s) in _normalize(t)`
  unfoldable pub quoted_in : (s t : String) → Bool
  unfolding normalize
  quoted_in s t = has_text (normalize s) (normalize t)

  -- The first quote that its span does not hold: the loop of `_quote_error`. It runs on registered
  -- identifiers only; at another one the source would raise.
  unfoldable pub wrong_quote : {F : Type 0} → Registry F → List (String × String) → Option String
  unfolding quoted_in
  wrong_quote reg [] = none
  wrong_quote reg (q ∷ qs) = elim (span_of q.0 reg) [
    | none ↦ none
    | some e ↦
        if is_blank q.1 || not (quoted_in q.1 (text_of e.snippet))
        then some
            (join ("Support quote for " ∷ q.0 ∷ " is not present in the registered evidence." ∷ []))
        else wrong_quote reg qs
  ]

  unfoldable pub quote_error : {F : Type 0} → Claim F → Registry F → Option String
  unfolding wrong_quote
  quote_error c reg =
      if not (same_set (keys_of c.support_quotes) c.evidence_ids)
      then some "Every evidence ID needs one exact support quote."
      else wrong_quote reg c.support_quotes
