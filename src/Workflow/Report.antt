-- ===== src/Workflow/Report.antt =====
-- What the report says: every transition is counted once, and the steps that it recommends.
use lit_trace.Base.{
  ◌+◌, String, ◌≡◌, refl, true, false, List, [], ◌∷◌, ◌++◌, arith, min, if◌then◌else◌, length,
  length-take, length-append, Bool-cases, inl, inr,
}
use lit_trace.Context.{contains}
use lit_trace.Context.Membership.{contains-append}
use lit_trace.Workflow.{
  Status, complete, ready, blocked, WorkflowTransition, Facts, transitions_of, is_ready, is_blocked,
  is_complete, count_of, next_steps, recommended_next_steps, build_workflow_status,
}

-- The targets are apart from each other, and from the texts that were used.
abbrev Distinct : List String → List WorkflowTransition → Type 0
Distinct used [] = Unit
Distinct used (t ∷ ts) = (contains t.target used ≡ false) × Distinct (used ++ t.target ∷ []) ts

counted_once :
    (s : Status)
    → (if is_ready s then 1 else 0)
        + (if is_blocked s then 1 else 0)
        + (if is_complete s then 1 else 0)
      ≡ 1
counted_once complete = refl
counted_once ready = refl
counted_once blocked = refl

count_all :
    (ts : List WorkflowTransition)
    → count_of is_ready ts + count_of is_blocked ts + count_of is_complete ts ≡ length ts
count_all [] = refl
count_all (t ∷ ts) = ground (arith, count_all ts, counted_once t.status)

abbrev Within : List String → List String → Type 0
Within xs ys = (s : String) → contains s xs ≡ true → contains s ys ≡ true

Within-append :
    (xs ys : List String) (t : String) → Within xs ys → Within (xs ++ t ∷ []) (ys ++ t ∷ [])
Within-append xs ys t h s e = ground (arith, contains-append s xs t, contains-append s ys t, h s, e)

Within-append_right : (xs ys : List String) (t : String) → Within xs ys → Within xs (ys ++ t ∷ [])
Within-append_right xs ys t h s e = ground (arith, contains-append s ys t, h s, e)

next_steps-length :
    (ts : List WorkflowTransition) (steps used : List String)
    → Within steps used
    → Distinct used ts
    → length (next_steps ts steps) ≡ length steps + count_of is_ready ts
next_steps-length [] steps used w d = omega arith
next_steps-length (t ∷ ts) steps used w d = elim (Bool-cases (is_ready t.status)) [
  | inr skipped ↦ rw skipped (
      omega (
        arith,
        next_steps-length ts steps (used ++ t.target ∷ [])
            (Within-append_right steps used t.target w) d.1,
      ))
  | inl taken ↦
      let fresh : contains t.target steps ≡ false = ground (arith, w t.target, d.0) in
      rw (taken, fresh)
        (omega (
          arith,
          length-append steps (t.target ∷ []),
          next_steps-length ts (steps ++ t.target ∷ []) (used ++ t.target ∷ [])
              (Within-append steps used t.target w) d.1,
        ))
]

transitions_of-Distinct : (f : Facts) → Distinct [] (transitions_of f)
unfolding transitions_of contains
transitions_of-Distinct f = (refl, (refl, (refl, (refl, (refl, (refl, tt))))))

-- Each of the six transitions is counted once, and the report recommends a step for each of the ready ones, up to four.
build_workflow_status-counts :
    (f : Facts)
    → let r = build_workflow_status f in
      (r.ready_count + r.blocked_count + r.complete_count ≡ 6)
      × (length r.recommended ≡ min 4 r.ready_count)
unfolding build_workflow_status recommended_next_steps transitions_of
build_workflow_status-counts f = (
  count_all (transitions_of f),
  omega (
    arith,
    length-take 4 (next_steps (transitions_of f) []),
    next_steps-length (transitions_of f) [] [] (λ s e. e) (transitions_of-Distinct f),
  ),
)
