-- ===== src/Gateway/Selected.antt =====
-- What the selection of papers is after a command that was committed.
use lit_trace.Base.{
  ℕ, String, ◌≡◌, refl, ◌∙◌, ap, Bool, true, false, not, List, [], ◌∷◌, ◌&&◌, ◌==◌, arith, ltb,
  length, ==→≡, Bool-cases, inl, inr,
}
use lit_trace.Base.Unique.{
  is_in, first_occurrences-IsUnique, IsUnique, IsWithin, is_in-select, select-IsUnique,
  is_in-append, append-IsUnique,
}
use lit_trace.Base.Table.{select, exists}
use lit_trace.Context.Papers.{Workspace}
use lit_trace.StateDb.{BindingRow, Error, ok, value_error, >>=-eq-ok, raise_if}
use lit_trace.Gateway.{
  RawIds, missing, null, not_a_list, ids, Library, Mode, add, remove, replace, clear, mode_of,
  is_clear, new_selection, strict_non_negative_int, SelectionArguments, Command, is_key, require,
}
use lit_trace.Gateway.Tools.{
  clean_ids, selection_ids, not_active, active_of, selection_of, plan_selection,
}

-- Papers that are all active.
pub not_active-IsWithin :
    (lib : Library) (ws : Workspace) (ps : List String)
    → not_active lib ws ps ≡ false
    → IsWithin ps (active_of lib ws)
unfolding exists
not_active-IsWithin lib ws [] h x m = cc
not_active-IsWithin lib ws (p ∷ ps) h x m = elim (Bool-cases (p == x)) [
  | inl same ↦ let eq = ==→≡ p x same in rw (← eq) (ground arith)
  | inr other ↦ not_active-IsWithin lib ws ps (ground arith) x (ground arith)
]

module _ (active previous paper_ids : List String) where
  -- A selection has no repetitions and active papers only.
  pub new_selection-IsWithin :
      (m : Mode)
      → IsWithin previous active
      → (is_clear m ≡ false → IsWithin paper_ids active)
      → IsWithin (new_selection m previous paper_ids) active
  unfolding new_selection
  new_selection-IsWithin clear h k x m = cc
  new_selection-IsWithin replace h k x m = k refl x m
  new_selection-IsWithin remove h k x m =
      h x (is_in-select (λ p. not (is_in p paper_ids)) x previous m).0
  new_selection-IsWithin add h k x m =
      let fresh = select (λ p. not (is_in p previous)) paper_ids in
      elim (Bool-cases (is_in x previous)) [
        | inl old ↦ h x old
        | inr new ↦
            k refl x
              (is_in-select (λ p. not (is_in p previous)) x paper_ids
                (ground (arith, is_in-append x previous fresh))).0
      ]

  fresh_ne :
      (x : String)
      → is_in x previous ≡ true
      → is_in x (select (λ p. not (is_in p previous)) paper_ids) ≡ false
  fresh_ne x m = elim (Bool-cases (is_in x (select (λ p. not (is_in p previous)) paper_ids))) [
    | inl there ↦
        absurd (ground (arith, (is_in-select (λ p. not (is_in p previous)) x paper_ids there).1))
    | inr gone ↦ gone
  ]

  pub new_selection-IsUnique :
      (m : Mode)
      → IsUnique previous
      → IsUnique paper_ids
      → IsUnique (new_selection m previous paper_ids)
  unfolding new_selection
  new_selection-IsUnique clear h k = tt
  new_selection-IsUnique replace h k = k
  new_selection-IsUnique remove h k = select-IsUnique _ previous h
  new_selection-IsUnique add h k =
      append-IsUnique previous (select (λ p. not (is_in p previous)) paper_ids) h
        (select-IsUnique _ paper_ids k) (λ x m. fresh_ne x m)

clean_ids-IsUnique : (lib : Library) (raw : List String) → IsUnique (clean_ids lib raw)
unfolding clean_ids
clean_ids-IsUnique lib raw = first_occurrences-IsUnique [] _

selection_ids-IsUnique :
    (lib : Library) (raw : RawIds) (paper_ids : List String)
    → selection_ids lib raw ≡ ok paper_ids
    → IsUnique paper_ids
selection_ids-IsUnique lib missing ps h = let e : [] ≡ ps = ground arith in rw (← e) tt
selection_ids-IsUnique lib (ids raw) ps h =
    let e : clean_ids lib raw ≡ ps = ground arith in rw (← e) (clean_ids-IsUnique lib raw)
selection_ids-IsUnique lib null ps h = cc
selection_ids-IsUnique lib not_a_list ps h = cc

not_active_same :
    (lib : Library) (ws ws' : Workspace) (ps : List String)
    → ws'.context.active_papers ≡ ws.context.active_papers
    → not_active lib ws' ps ≡ not_active lib ws ps
not_active_same lib ws ws' ps h = ap (λ active. exists (λ p. not (is_in p active)) ps) h

-- A planned command: its mode, its papers, and the checks that they passed.
pub record IsPlanned (lib : Library) (b : BindingRow) (ws : Workspace) (a : SelectionArguments)
    (c : Command) : Type 0 where
  pub mode : Mode
  pub expected : ℕ
  pub key : String
  pub paper_ids : List String
  pub made : c ≡ selection_of lib b ws mode expected key paper_ids
  pub keyed : key ≡ lib.strip a.idempotency_key
  pub unique : IsUnique paper_ids
  pub active : is_clear mode ≡ false → not_active lib ws paper_ids ≡ false
  pub again :
      (b' : BindingRow) (ws' : Workspace)
      → ws'.context.active_papers ≡ ws.context.active_papers
      → plan_selection lib b' ws' a ≡ ok (selection_of lib b' ws' mode expected key paper_ids)

pub raise_if_ok : (t : Bool) (e : Error) → raise_if t e ≡ ok tt → t ≡ false
raise_if_ok true e h = cc
raise_if_ok false e h = refl

plan_again :
    (lib : Library) (ws : Workspace) (a : SelectionArguments) (mode : Mode) (expected : ℕ)
    (ps : List String)
    → require (mode_of a.mode) ≡ ok mode
    → strict_non_negative_int a.expected_revision ≡ ok expected
    → raise_if (not (is_key (lib.strip a.idempotency_key))) value_error ≡ ok tt
    → selection_ids lib a.paper_ids ≡ ok ps
    → raise_if (ltb 100 (length ps)) value_error ≡ ok tt
    → raise_if (not (is_clear mode) && not_active lib ws ps) value_error ≡ ok tt
    → (b' : BindingRow) (ws' : Workspace) → ws'.context.active_papers ≡ ws.context.active_papers
    → plan_selection lib b' ws' a
      ≡ ok (selection_of lib b' ws' mode expected (lib.strip a.idempotency_key) ps)
unfolding plan_selection
plan_again lib ws a mode expected ps e₁ e₂ e₃ e₄ e₅ e₆ b' ws' same =
    let e₇ : raise_if (not (is_clear mode) && not_active lib ws' ps) value_error ≡ ok tt =
      ap (λ t. raise_if (not (is_clear mode) && t) value_error) (not_active_same lib ws ws' ps same)
      ∙ e₆ in
    rw (plan_selection, e₁) (rw e₂ (rw e₃ (rw e₄ (rw e₅ (rw e₇ refl)))))

pub plan_selection-IsPlanned :
    (lib : Library) (b : BindingRow) (ws : Workspace) (a : SelectionArguments) (c : Command)
    → plan_selection lib b ws a ≡ ok c
    → IsPlanned lib b ws a c
unfolding plan_selection
plan_selection-IsPlanned lib b ws a c h =
    let (mode, e₁, h₁) = >>=-eq-ok (require (mode_of a.mode)) _ h in
    let (expected, e₂, h₂) = >>=-eq-ok (strict_non_negative_int a.expected_revision) _ h₁ in
    let (_, e₃, h₃) =
      >>=-eq-ok (raise_if (not (is_key (lib.strip a.idempotency_key))) value_error) _ h₂ in
    let (paper_ids, e₄, h₄) = >>=-eq-ok (selection_ids lib a.paper_ids) _ h₃ in
    let (_, e₅, h₅) = >>=-eq-ok (raise_if (ltb 100 (length paper_ids)) value_error) _ h₄ in
    let (_, e₆, h₆) =
      >>=-eq-ok (raise_if (not (is_clear mode) && not_active lib ws paper_ids) value_error) _ h₅ in
    record {
      mode = mode;
      expected = expected;
      key = lib.strip a.idempotency_key;
      paper_ids = paper_ids;
      made = ground arith;
      keyed = refl;
      unique = selection_ids-IsUnique lib a.paper_ids paper_ids e₄;
      active = λ k. ground (arith, raise_if_ok _ _ e₆);
      again = plan_again lib ws a mode expected paper_ids e₁ e₂ e₃ e₄ e₅ e₆;
    }
