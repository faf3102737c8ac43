-- ===== src/Context/Loops.antt =====
-- The loops of `apply_context_update`, as operations on whole lists.
use lit_trace.Base.{String, ◌≡◌, refl, Bool, true, not, List, [], ◌∷◌, ◌&&◌}
use lit_trace.Context.{
  LiteratureContext, contains, include_papers, exclude_papers, pin_papers, unpin_papers,
  select_papers, deselect_papers,
}
use lit_trace.Context.Membership.{remove_all, append_where}

abbrev pub every : String → Bool
every s = true

pub include_papers_eq :
    (ids : List String) (c : LiteratureContext)
    → include_papers ids c ≡ record c {
      excluded_papers = remove_all ids c.excluded_papers;
      active_papers = append_where every ids c.active_papers;
    }
unfolding include_papers remove_all append_where
include_papers_eq [] c = refl
include_papers_eq (id ∷ ids) c = include_papers_eq ids _

pub exclude_papers_eq :
    (ids : List String) (c : LiteratureContext)
    → exclude_papers ids c ≡ record c {
      active_papers = remove_all ids c.active_papers;
      pinned_papers = remove_all ids c.pinned_papers;
      selected_for_download = remove_all ids c.selected_for_download;
      excluded_papers = append_where every ids c.excluded_papers;
    }
unfolding exclude_papers remove_all append_where
exclude_papers_eq [] c = refl
exclude_papers_eq (id ∷ ids) c = exclude_papers_eq ids _

pub pin_papers_eq :
    (ids : List String) (c : LiteratureContext)
    → pin_papers ids c ≡ record c {
      pinned_papers = append_where (λ s. contains s c.active_papers) ids c.pinned_papers;
    }
unfolding pin_papers append_where
pin_papers_eq [] c = refl
pin_papers_eq (id ∷ ids) c = pin_papers_eq ids _

pub unpin_papers_eq :
    (ids : List String) (c : LiteratureContext)
    → unpin_papers ids c ≡ record c { pinned_papers = remove_all ids c.pinned_papers }
unfolding unpin_papers remove_all
unpin_papers_eq [] c = refl
unpin_papers_eq (id ∷ ids) c = unpin_papers_eq ids _

pub select_papers_eq :
    (papers ids : List String) (c : LiteratureContext)
    → select_papers papers ids c ≡ record c {
      selected_for_download =
          append_where
            (λ s. contains s papers && not (contains s c.excluded_papers))
            ids
            c.selected_for_download;
    }
unfolding select_papers append_where
select_papers_eq papers [] c = refl
select_papers_eq papers (id ∷ ids) c = select_papers_eq papers ids _

pub deselect_papers_eq :
    (ids : List String) (c : LiteratureContext)
    → deselect_papers ids c
      ≡ record c { selected_for_download = remove_all ids c.selected_for_download }
unfolding deselect_papers remove_all
deselect_papers_eq [] c = refl
deselect_papers_eq (id ∷ ids) c = deselect_papers_eq ids _
