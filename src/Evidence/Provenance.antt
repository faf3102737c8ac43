-- ===== src/Evidence/Provenance.antt =====
-- The provenance that the validator of a span fills in.
use Prim.Native.String
use lit_trace.Base.{
  String, ◌≡◌, refl, true, false, Option, none, some, [], ◌∷◌, ◌==◌, arith, eq_iff, Bool-cases, inl,
  inr, first_chars, join,
}
use text.Mathlib.TextLemmas.{append-eq-nil_iff}
use lit_trace.Evidence.{
  EvidenceSpan, holds, or_else_text, has_location, provenance_complete, populate_provenance,
}

append_empty : (s t : String) → (String.◌++◌ s t == "") ≡ true → (s ≡ "") × (t ≡ "")
append_empty s t h = (append-eq-nil_iff {p = s} {q = t}).0 ((eq_iff (String.◌++◌ s t) "").0 h)

-- A text that begins, or ends, with a text that is not empty.
prefixed : (s t : String) → (s == "") ≡ false → (String.◌++◌ s t == "") ≡ false
prefixed s t n = elim (Bool-cases (String.◌++◌ s t == "")) [
  | inl e ↦ absurd (ground (arith, eq_iff s "", append_empty s t e))
  | inr ok ↦ ok
]

suffixed : (s t : String) → (t == "") ≡ false → (String.◌++◌ s t == "") ≡ false
suffixed s t n = elim (Bool-cases (String.◌++◌ s t == "")) [
  | inl e ↦ absurd (ground (arith, eq_iff t "", append_empty s t e))
  | inr ok ↦ ok
]

-- A text or its default, where the default is not empty.
or_else_text-holds :
    (o : Option String) (t : String) → (t == "") ≡ false → holds (some (or_else_text o t)) ≡ true
or_else_text-holds none t h = ground arith
or_else_text-holds (some s) t h = ground arith

-- Once the validator has run, with a hash and a time that are not empty, the provenance of a span is
-- complete exactly if the span has a location, that is a snippet, a page, a section or a table.
provenance_complete-populate :
    {F : Type 0} (hash now : String) (e : EvidenceSpan F)
    → (hash == "") ≡ false
    → (now == "") ≡ false
    → provenance_complete (populate_provenance hash now e) ≡ has_location e
unfolding provenance_complete populate_provenance has_location
provenance_complete-populate hash now e h k =
    let content_hash = or_else_text e.content_hash hash in
    rw
      (
        or_else_text-holds e.content_hash hash h,
        or_else_text-holds e.captured_at now k,
        or_else_text-holds e.evidence_id
            (join ("ev:" ∷ e.paper_id ∷ ":" ∷ first_chars 16 content_hash ∷ []))
            (prefixed "ev:" (join (e.paper_id ∷ ":" ∷ first_chars 16 content_hash ∷ [])) refl),
        or_else_text-holds e.source_record_id (String.◌++◌ "paper:" e.paper_id)
            (prefixed "paper:" e.paper_id refl),
        or_else_text-holds e.parser_version (String.◌++◌ (or_else_text e.parser "manual") ":v1")
            (suffixed (or_else_text e.parser "manual") ":v1" refl),
      )
      refl
