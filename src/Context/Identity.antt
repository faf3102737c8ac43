-- ===== src/Context/Identity.antt =====
-- What the additions of papers keep: the consistency of the context, and one canonical work for each identity.
use lit_trace.Base.{
  String, ◌≡◌, ◌≢◌, refl, ap, ◌∙◌, true, false, Option, none, some, List, [], ◌∷◌, ◌++◌, ◌==◌,
  arith, eq_iff, eq_refl, if◌then◌else◌, find, exists, update, Bool-cases, Option-cases, inl, inr,
  sym, ==-trans_ne,
}
use lit_trace.Base.Table.{
  or_else, find-update_self, find-update_ne, exists-find, find-append, exists-find-none,
}
use lit_trace.Context.{Paper, LiteratureContext, contains}
use lit_trace.Context.Membership.{IsUnique-append, contains-append, contains-append_unique}
use lit_trace.Context.Update.{IsConsistent}
use lit_trace.Context.Papers.{
  CanonicalWork, Workspace, of_work, canonical_work_id, new_work, with_version, register_work,
  register_paper_identity, activate, add_papers,
}

activate-IsConsistent :
    (p : Paper) (c : LiteratureContext) → IsConsistent c → IsConsistent (activate p c)
activate-IsConsistent p c h = elim (Bool-cases (contains p.paper_id c.active_papers)) [
  | inl there ↦ rw there h
  | inr absent ↦ elim (Bool-cases (contains p.paper_id c.excluded_papers)) [
    | inl out ↦ rw (absent, out) h
    | inr free ↦
        rw (absent, free)
          (record {
            active = IsUnique-append p.paper_id c.active_papers h.active absent;
            excluded = h.excluded;
            pinned = h.pinned;
            selected = h.selected;
            not_active = λ s e. ground (
              arith,
              e,
              h.not_active s,
              contains-append s c.active_papers p.paper_id,
              eq_iff p.paper_id s,
              free,
            );
            not_pinned = h.not_pinned;
            not_selected = h.not_selected;
          })
  ]
]

-- The work of an identity after a paper was registered, by the works of before.
pub record IsMerged (id : String) (p : Paper) (before after : List CanonicalWork) : Type 0 where
  pub work : CanonicalWork
  pub there : find (of_work id) after ≡ some work
  pub versioned : contains p.paper_id work.version_paper_ids ≡ true
  pub kept :
      (v : CanonicalWork)
      → find (of_work id) before ≡ some v
      → work.canonical_paper_id ≡ v.canonical_paper_id
  pub grown :
      (v : CanonicalWork) (s : String)
      → find (of_work id) before ≡ some v
      → contains s v.version_paper_ids ≡ true
      → contains s work.version_paper_ids ≡ true
  pub others :
      (other : String) → other ≢ id → find (of_work other) after ≡ find (of_work other) before

contains_self : (s : String) (xs : List String) → contains s (s ∷ xs) ≡ true
unfolding contains
contains_self s xs = ground (arith, eq_refl s)

apart :
    (id other : String) (w : CanonicalWork)
    → other ≢ id
    → (w.work_id == id) ≡ true
    → (w.work_id == other) ≡ false
apart id other w n h = ==-trans_ne w.work_id id other h n

some-eq : {A : Type 0} {a b : A} (o : Option A) → o ≡ some a → o ≡ some b → a ≡ b
some-eq o h k = ground (arith, sym h ∙ k)

find_apart :
    (id other : String) (p : Paper) → other ≢ id → find (of_work other) (new_work id p ∷ []) ≡ none
unfolding find
find_apart id other p n = rw (apart id other (new_work id p) n (eq_refl id)) refl

or_else-none : {A : Type 0} (o : Option A) → or_else o none ≡ o
or_else-none none = refl
or_else-none (some a) = refl

merged :
    (id : String) (p : Paper) (ws : List CanonicalWork)
    → IsMerged id p ws (
        if exists (of_work id) ws
        then update (of_work id) (with_version p) ws
        else ws ++ new_work id p ∷ [])
merged id p ws = elim (Option-cases (find (of_work id) ws)) [
  | inl none_yet ↦ rw (exists-find-none (of_work id) ws none_yet) (record {
    work = new_work id p;
    there =
        rw (find-append (of_work id) ws (new_work id p ∷ []), none_yet)
          (unfold find in rw (eq_refl id) refl);
    versioned = contains_self p.paper_id [];
    kept = λ v e. ground (arith, sym none_yet ∙ e);
    grown = λ v s e. ground (arith, sym none_yet ∙ e);
    others = λ other n.
        rw (find-append (of_work other) ws (new_work id p ∷ []), find_apart id other p n)
          (or_else-none (find (of_work other) ws));
  })
  | inr (old, e) ↦ rw (exists-find (of_work id) ws old e) (record {
    work = with_version p old;
    there = rw (find-update_self (of_work id) (with_version p) ws (λ w h. h), e) refl;
    versioned = ground (
      arith,
      contains-append_unique p.paper_id p.paper_id old.version_paper_ids,
      eq_refl p.paper_id,
    );
    kept = λ v f. ap (λ w. w.canonical_paper_id) (some-eq _ e f);
    grown = λ v s f c.
        ground (arith, some-eq _ e f, c, contains-append_unique s p.paper_id old.version_paper_ids);
    others = λ other n.
        find-update_ne (of_work other) (of_work id) (with_version p) ws
          (λ w h. (apart id other w n h, apart id other w n h));
  })
]

module _ (digest strip_lower words : String → String) (dump : Paper → String) where
  add_papers-context :
      (ps : List Paper) (ws : Workspace)
      → IsConsistent ws.context
      → IsConsistent (add_papers digest strip_lower words dump ps ws).context
  unfolding add_papers
  add_papers-context [] ws h = h
  add_papers-context (p ∷ ps) ws h = add_papers-context ps _ (activate-IsConsistent p ws.context h)

  add_papers-excluded :
      (ps : List Paper) (ws : Workspace)
      → (add_papers digest strip_lower words dump ps ws).context.excluded_papers
        ≡ ws.context.excluded_papers
  unfolding add_papers
  add_papers-excluded [] ws = refl
  add_papers-excluded (p ∷ ps) ws = add_papers-excluded ps _

  -- A registered paper is among the versions of the canonical work of its identity; a work that was there keeps its
  -- canonical paper and its versions; and no other work changes.
  pub register_paper_identity-IsMerged :
      (p : Paper) (ws : Workspace)
      → IsMerged
          (canonical_work_id digest strip_lower words dump p)
          p
          ws.canonical_works
          (register_paper_identity digest strip_lower words dump ws p).canonical_works
  unfolding register_paper_identity register_work
  register_paper_identity-IsMerged p ws =
      merged (canonical_work_id digest strip_lower words dump p) p ws.canonical_works

  -- Adding papers to a consistent context gives a consistent context, and takes no excluded paper back.
  add_papers-IsConsistent :
      (ps : List Paper) (ws : Workspace)
      → IsConsistent ws.context
      → IsConsistent (add_papers digest strip_lower words dump ps ws).context
        × ((add_papers digest strip_lower words dump ps ws).context.excluded_papers
            ≡ ws.context.excluded_papers)
  add_papers-IsConsistent ps ws h = (add_papers-context ps ws h, add_papers-excluded ps ws)
