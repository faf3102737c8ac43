-- ===== src/Context/Samples.antt =====
-- The theorems about the context of a workspace at one of three papers.
use lit_trace.Base.{
  String, ◌≡◌, refl, true, false, not, none, some, List, [], ◌∷◌, ◌&&◌, ◌||◌, arith, ==→≡,
}
use mathlib.Core.Path.{subst}
use lit_trace.Json.{Fields, end}
use lit_trace.Context.{LiteratureContext, ContextUpdate, Paper, contains, apply_context_update}
use lit_trace.Context.Update.{
  IsConsistent, apply_context_update-contains, apply_context_update-IsConsistent,
}
use lit_trace.Context.Papers.{Workspace, register_paper_identity, canonical_work_id}
use lit_trace.Context.Identity.{IsMerged, register_paper_identity-IsMerged}

abbrev context : LiteratureContext
context = record {
  visible_to_user = true;
  active_papers = "p1" ∷ "p2" ∷ [];
  excluded_papers = "p3" ∷ [];
  pinned_papers = "p1" ∷ [];
  importance_levels = [];
  selected_for_download = [];
  filters = end;
}

abbrev swap : ContextUpdate
swap = record {
  visible_to_user = none;
  include_paper_ids = "p3" ∷ [];
  exclude_paper_ids = "p1" ∷ [];
  pin_paper_ids = "p3" ∷ [];
  unpin_paper_ids = [];
  select_for_download = "p2" ∷ [];
  deselect_for_download = [];
  filters = none;
}

abbrev same : Fields → Fields
same fs = fs

abbrev shelf : List String
shelf = "p1" ∷ "p2" ∷ "p3" ∷ []

only_third : (s : String) → contains s context.excluded_papers ≡ true → "p3" ≡ s
unfolding contains
only_third s h = ==→≡ "p3" s (ground (arith, h))

context-IsConsistent : IsConsistent context
unfolding contains
context-IsConsistent = record {
  active = (refl, (refl, tt));
  excluded = (refl, tt);
  pinned = (refl, tt);
  selected = tt;
  not_active = λ s h. subst (λ t. contains t context.active_papers ≡ false) (only_third s h) refl;
  not_pinned = λ s h. subst (λ t. contains t context.pinned_papers ≡ false) (only_third s h) refl;
  not_selected = λ s h. refl;
}

apply_context_update-IsConsistent_example :
    IsConsistent (apply_context_update [] same shelf swap context)
apply_context_update-IsConsistent_example =
    apply_context_update-IsConsistent [] same shelf swap context context-IsConsistent

apply_context_update-contains_example :
    (contains "p3" (apply_context_update [] same shelf swap context).active_papers ≡ (
      (contains "p3" context.active_papers || contains "p3" swap.include_paper_ids)
      && not (contains "p3" swap.exclude_paper_ids)))
    × (contains "p3" (apply_context_update [] same shelf swap context).excluded_papers ≡ (
        (contains "p3" context.excluded_papers && not (contains "p3" swap.include_paper_ids))
        || contains "p3" swap.exclude_paper_ids))
    × (contains "p3" (apply_context_update [] same shelf swap context).pinned_papers ≡ (
        ((contains "p3" context.pinned_papers && not (contains "p3" swap.exclude_paper_ids))
          || (contains "p3" swap.pin_paper_ids
              && ((contains "p3" context.active_papers || contains "p3" swap.include_paper_ids)
                  && not (contains "p3" swap.exclude_paper_ids))))
        && not (contains "p3" swap.unpin_paper_ids)))
    × (contains "p3" (apply_context_update [] same shelf swap context).selected_for_download ≡ (
        ((contains "p3" context.selected_for_download && not (contains "p3" swap.exclude_paper_ids))
          || (contains "p3" swap.select_for_download
              && (contains "p3" shelf
                  && not (
                      (contains "p3" context.excluded_papers
                        && not (contains "p3" swap.include_paper_ids))
                      || contains "p3" swap.exclude_paper_ids))))
        && not (contains "p3" swap.deselect_for_download)))
apply_context_update-contains_example =
    apply_context_update-contains [] same shelf swap context context-IsConsistent "p3"

abbrev paper : String → Paper
paper id = record {
  paper_id = id;
  title = "A title";
  journal = none;
  publisher = none;
  doi = some "10.1/x";
  source_urls = [];
  pdf_url = none;
}

abbrev itself : String → String
itself s = s

abbrev dump : Paper → String
dump p = p.title

abbrev workspace : Workspace
workspace = record {
  context = context;
  papers = [];
  source_records = [];
  canonical_works = [];
  resolution_decisions = [];
}

register_paper_identity-IsMerged_example :
    IsMerged
      (canonical_work_id itself itself itself dump (paper "p1"))
      (paper "p1")
      workspace.canonical_works
      (register_paper_identity itself itself itself dump workspace (paper "p1")).canonical_works
register_paper_identity-IsMerged_example =
    register_paper_identity-IsMerged itself itself itself dump (paper "p1") workspace
