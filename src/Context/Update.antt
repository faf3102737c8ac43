-- ===== src/Context/Update.antt =====
-- What an update does to the four lists of a context, as sets, and the invariant that it keeps.
use lit_trace.Base.{String, ◌≡◌, refl, Bool, not, List, ◌&&◌, ◌||◌, arith}
use lit_trace.Json.{Fields}
use lit_trace.Context.{
  LiteratureContext, ContextUpdate, contains, or_visible, merge_update, apply_context_update,
}
use lit_trace.Context.Membership.{
  IsUnique, IsApart, remove_all, append_where, IsUnique-remove_all, contains-remove_all,
  IsUnique-append_where, contains-append_where,
}
use lit_trace.Context.Loops.{
  every, include_papers_eq, exclude_papers_eq, pin_papers_eq, unpin_papers_eq, select_papers_eq,
  deselect_papers_eq,
}

-- No list repeats an identifier, and no excluded paper is active, pinned or selected for download.
pub record IsConsistent (c : LiteratureContext) : Type 0 where
  pub active : IsUnique c.active_papers
  pub excluded : IsUnique c.excluded_papers
  pub pinned : IsUnique c.pinned_papers
  pub selected : IsUnique c.selected_for_download
  pub not_active : IsApart c.excluded_papers c.active_papers
  pub not_pinned : IsApart c.excluded_papers c.pinned_papers
  pub not_selected : IsApart c.excluded_papers c.selected_for_download

-- The four lists after an update.
abbrev excluded_after : ContextUpdate → LiteratureContext → List String
excluded_after u c =
    append_where every u.exclude_paper_ids (remove_all u.include_paper_ids c.excluded_papers)

abbrev active_after : ContextUpdate → LiteratureContext → List String
active_after u c =
    remove_all u.exclude_paper_ids (append_where every u.include_paper_ids c.active_papers)

abbrev pinned_after : ContextUpdate → LiteratureContext → List String
pinned_after u c = remove_all u.unpin_paper_ids (
    append_where (λ s. contains s (active_after u c)) u.pin_paper_ids
      (remove_all u.exclude_paper_ids c.pinned_papers))

abbrev selected_after : List String → ContextUpdate → LiteratureContext → List String
selected_after papers u c = remove_all u.deselect_for_download (
    append_where (λ s. contains s papers && not (contains s (excluded_after u c)))
      u.select_for_download (remove_all u.exclude_paper_ids c.selected_for_download))

module _ (known : List String) (validate : Fields → Fields) (papers : List String)
    (u : ContextUpdate) (c : LiteratureContext) where
  abbrev updated : LiteratureContext
  updated = apply_context_update known validate papers u c

  apply_context_update_eq : updated ≡ record c {
    visible_to_user = or_visible u.visible_to_user c.visible_to_user;
    filters = merge_update known validate u.filters c.filters;
    excluded_papers = excluded_after u c;
    active_papers = active_after u c;
    pinned_papers = pinned_after u c;
    selected_for_download = selected_after papers u c;
  }
  unfolding apply_context_update
  apply_context_update_eq =
      rw
        (
          include_papers_eq u.include_paper_ids,
          exclude_papers_eq u.exclude_paper_ids,
          pin_papers_eq u.pin_paper_ids,
          unpin_papers_eq u.unpin_paper_ids,
          select_papers_eq papers u.select_for_download,
          deselect_papers_eq u.deselect_for_download,
        )
        refl

  module _ (h : IsConsistent c) where
    active-IsUnique : IsUnique (append_where every u.include_paper_ids c.active_papers)
    active-IsUnique = IsUnique-append_where every u.include_paper_ids c.active_papers h.active

    active_contains :
        (s : String)
        → contains s (active_after u c) ≡ (
            (contains s c.active_papers || contains s u.include_paper_ids)
            && not (contains s u.exclude_paper_ids))
    active_contains s = ground (
      arith,
      contains-remove_all s u.exclude_paper_ids _ active-IsUnique,
      contains-append_where every s u.include_paper_ids c.active_papers,
    )

    excluded_contains :
        (s : String)
        → contains s (excluded_after u c) ≡ (
            (contains s c.excluded_papers && not (contains s u.include_paper_ids))
            || contains s u.exclude_paper_ids)
    excluded_contains s = ground (
      arith,
      contains-append_where every s u.exclude_paper_ids
          (remove_all u.include_paper_ids c.excluded_papers),
      contains-remove_all s u.include_paper_ids c.excluded_papers h.excluded,
    )

    pinned-IsUnique : IsUnique (
        append_where
          (λ s. contains s (active_after u c))
          u.pin_paper_ids
          (remove_all u.exclude_paper_ids c.pinned_papers))
    pinned-IsUnique =
        IsUnique-append_where _ u.pin_paper_ids _
          (IsUnique-remove_all u.exclude_paper_ids c.pinned_papers h.pinned)

    pinned_contains :
        (s : String)
        → contains s (pinned_after u c) ≡ (
            ((contains s c.pinned_papers && not (contains s u.exclude_paper_ids))
              || (contains s u.pin_paper_ids && contains s (active_after u c)))
            && not (contains s u.unpin_paper_ids))
    pinned_contains s =
        rw
          (
            contains-remove_all s u.unpin_paper_ids _ pinned-IsUnique,
            contains-append_where (λ t. contains t (active_after u c)) s u.pin_paper_ids
                (remove_all u.exclude_paper_ids c.pinned_papers),
            contains-remove_all s u.exclude_paper_ids c.pinned_papers h.pinned,
          )
          refl

    abbrev selectable : String → Bool
    selectable s = contains s papers && not (contains s (excluded_after u c))

    selected-IsUnique : IsUnique (
        append_where selectable u.select_for_download
          (remove_all u.exclude_paper_ids c.selected_for_download))
    selected-IsUnique =
        IsUnique-append_where selectable u.select_for_download _
          (IsUnique-remove_all u.exclude_paper_ids c.selected_for_download h.selected)

    selected_contains :
        (s : String)
        → contains s (selected_after papers u c) ≡ (
            ((contains s c.selected_for_download && not (contains s u.exclude_paper_ids))
              || (contains s u.select_for_download && selectable s))
            && not (contains s u.deselect_for_download))
    selected_contains s =
        rw
          (
            contains-remove_all s u.deselect_for_download _ selected-IsUnique,
            contains-append_where selectable s u.select_for_download
                (remove_all u.exclude_paper_ids c.selected_for_download),
            contains-remove_all s u.exclude_paper_ids c.selected_for_download h.selected,
          )
          refl

  -- An update of a consistent context acts on the lists as on sets: included papers leave the
  -- excluded ones and become active, excluded ones leave all three other lists; a paper is pinned
  -- only if it is then active, and selected only if the workspace has it and it is then not
  -- excluded; last the unpinned and the deselected ones go.
  pub apply_context_update-contains :
      IsConsistent c
      → (s : String)
      → let active =
          (contains s c.active_papers || contains s u.include_paper_ids)
          && not (contains s u.exclude_paper_ids) in
        let excluded =
          (contains s c.excluded_papers && not (contains s u.include_paper_ids))
          || contains s u.exclude_paper_ids in
        let pinned =
          (contains s c.pinned_papers && not (contains s u.exclude_paper_ids))
          || (contains s u.pin_paper_ids && active) in
        let selected =
          (contains s c.selected_for_download && not (contains s u.exclude_paper_ids))
          || (contains s u.select_for_download && (contains s papers && not excluded)) in
        (contains s updated.active_papers ≡ active)
        × (contains s updated.excluded_papers ≡ excluded)
        × (contains s updated.pinned_papers ≡ (pinned && not (contains s u.unpin_paper_ids)))
        × (contains s updated.selected_for_download
            ≡ (selected && not (contains s u.deselect_for_download)))
  apply_context_update-contains h s = rw apply_context_update_eq (
      let act = active_contains h s in
      let exc = excluded_contains h s in
      (
        act,
        exc,
        ground (arith, pinned_contains h s, act),
        ground (arith, selected_contains h s, exc),
      ))

  -- An update of a consistent context gives a consistent context.
  pub apply_context_update-IsConsistent : IsConsistent c → IsConsistent updated
  apply_context_update-IsConsistent h = rw apply_context_update_eq (record {
    active = IsUnique-remove_all u.exclude_paper_ids _ (active-IsUnique h);
    excluded =
        IsUnique-append_where every u.exclude_paper_ids _
          (IsUnique-remove_all u.include_paper_ids c.excluded_papers h.excluded);
    pinned = IsUnique-remove_all u.unpin_paper_ids _ (pinned-IsUnique h);
    selected = IsUnique-remove_all u.deselect_for_download _ (selected-IsUnique h);
    not_active =
        λ s e. ground (arith, e, excluded_contains h s, active_contains h s, h.not_active s);
    not_pinned = λ s e. ground (
      arith,
      e,
      excluded_contains h s,
      pinned_contains h s,
      active_contains h s,
      h.not_pinned s,
      h.not_active s,
    );
    not_selected =
        λ s e. ground (arith, e, excluded_contains h s, selected_contains h s, h.not_selected s);
  })
