-- ===== src/Tools/Kept.antt =====
-- A result that a ledger keeps, through any calls of any tools.
use lit_trace.Base.{
  ℕ, String, ◌≡◌, ◌∙◌, refl, false, Option, none, some, List, [], ◌∷◌, arith, eq_iff, Option-cases,
  Bool-cases, inl, inr, ◌==◌,
}
use lit_trace.Tools.{ToolContract, ToolExecutionPolicy}
use lit_trace.Tools.Values.{Value}
use lit_trace.Tools.Budget.{Budget}
use lit_trace.Tools.Call.{
  Arguments, Outcome, returned, raised, ToolExecutionLedger, ToolResult, Begun, answered, ready,
  begin_call, begin_filled, begin_funded, budget_violation, reusable, can_reuse_result, key_of,
  fill, fill_opt, policy_violation, cached, put_cached,
}
use lit_trace.Tools.Run.{keep, charge_budget, finish_call, resume, run_sync_tool}
use lit_trace.Tools.Solvency.{Request, run_all}

cached-put_cached_others :
    (k j : String) (r : ToolResult) (rs : List (String × ToolResult))
    → (j == k) ≡ false
    → cached k (put_cached j r rs) ≡ cached k rs
cached-put_cached_others k j r [] h = ground arith
cached-put_cached_others k j r (s ∷ rs) h = elim (Bool-cases (s.0 == j)) [
  | inl same ↦
      let e : s.0 ≡ j = ground (arith, eq_iff s.0 j) in
      let missed : (s.0 == k) ≡ false = rw e h in rw (same, missed) (rw h refl)
  | inr other ↦ ground (arith, cached-put_cached_others k j r rs h)
]

module _ (k : String) (r : ToolResult) where
  -- The ledger keeps the result under the key.
  abbrev pub Keeps : Option ToolExecutionLedger → Type 0
  Keeps none = ⊥
  Keeps (some l) = cached k l.cached_results ≡ some r

  module _ (a : Arguments) where
    -- Whatever is called, a call that is not answered leaves the key free.
    abbrev IsOpen : Begun → Type 0
    IsOpen (answered q l) = Keeps l
    IsOpen (ready l) = Keeps l × (reusable a.contract (key_of a) l ≡ none)

    begin_funded-IsOpen :
        (l : Option ToolExecutionLedger)
        → Keeps l
        → reusable a.contract (key_of a) l ≡ none
        → IsOpen (begin_funded a l)
    unfolding begin_funded
    begin_funded-IsOpen l h free = elim (Option-cases (budget_violation a.contract l)) [
      | inl e ↦ rw (begin_funded, e) (h, free)
      | inr (v, e) ↦ rw (begin_funded, e) h
    ]

    begin_filled-IsOpen : (l : Option ToolExecutionLedger) → Keeps l → IsOpen (begin_filled a l)
    unfolding begin_filled
    begin_filled-IsOpen l h = elim (Option-cases (reusable a.contract (key_of a) l)) [
      | inl e ↦ rw (begin_filled, e) (begin_funded-IsOpen l h e)
      | inr (q, e) ↦ rw (begin_filled, e) h
    ]

    fill-Keeps :
        (p : Option ToolExecutionPolicy) (l : Option ToolExecutionLedger)
        → Keeps l
        → Keeps (fill_opt p l)
    unfolding fill
    fill-Keeps p none h = h
    fill-Keeps p (some l) h = ground (arith, h)

    begin_call-IsOpen : (l : Option ToolExecutionLedger) → Keeps l → IsOpen (begin_call a l)
    unfolding begin_call
    begin_call-IsOpen l h = elim (Option-cases (policy_violation a.policy a.contract)) [
      | inl e ↦ rw (begin_call, e) (begin_filled-IsOpen _ (fill-Keeps a.policy l h))
      | inr (v, e) ↦ rw (begin_call, e) h
    ]

  keep-Keeps :
      (c : ToolContract) (key : Option String) (q : ToolResult) (l : ToolExecutionLedger)
      (bs : List (String × Budget))
      → Keeps (some l)
      → reusable c key (some l) ≡ none
      → Keeps (keep c key q (some (record l { remaining_budget = bs })))
  unfolding keep reusable
  keep-Keeps c none q l bs h free = h
  keep-Keeps c (some j) q l bs h free = elim (Bool-cases (can_reuse_result c)) [
    | inl can ↦ elim (Bool-cases (j == k)) [
      | inl same ↦
          let e : j ≡ k = ground (arith, eq_iff j k) in
          let none_kept : cached j l.cached_results ≡ none = ground (arith, free, can) in
          let some_kept : cached j l.cached_results ≡ some r = rw e h in cc
      | inr other ↦ rw can (cached-put_cached_others k j q l.cached_results other ∙ h)
    ]
    | inr cannot ↦ rw cannot h
  ]

  module _ (to_str : Value → String) (bytes : Value → ℕ) where
    finish_call-Keeps :
        (a : Arguments) (o : Outcome) (l : Option ToolExecutionLedger)
        → IsOpen a (ready l)
        → Keeps (finish_call to_str bytes a o l).1
    unfolding finish_call charge_budget reusable
    finish_call-Keeps a o none h = absurd h.0
    finish_call-Keeps a (raised class message) (some l) h = h.0
    finish_call-Keeps a (returned v) (some l) h = keep-Keeps a.contract (key_of a) _ l _ h.0 h.1

    resume-Keeps {ℓ} :
        {W : Type ℓ} (func : W → Outcome × W) (a : Arguments) (w : W) (b : Begun)
        → IsOpen a b
        → Keeps (resume to_str bytes func a w b).1
    resume-Keeps func a w (answered q l) h = h
    resume-Keeps func a w (ready l) h = finish_call-Keeps a (func w).0 l h

    pub run_all-Keeps {ℓ} :
        {W : Type ℓ} (qs : List (Request W)) (l : Option ToolExecutionLedger) (w : W)
        → Keeps l
        → Keeps (run_all to_str bytes qs l w).1
    unfolding run_all run_sync_tool
    run_all-Keeps [] l w h = h
    run_all-Keeps (q ∷ qs) l w h =
        let one = run_sync_tool to_str bytes q.0 q.1 l w in
        run_all-Keeps qs one.1 one.2
          (resume-Keeps q.0 q.1 w (begin_call q.1 l) (begin_call-IsOpen q.1 l h))
