-- ===== src/Context.antt =====
-- context.py and identity.py: the context of a workspace, and the identities of its papers.
pub mod Membership
pub mod Loops
pub mod Update
pub mod Papers
pub mod Identity
pub mod Samples
use lit_trace.Base.{
  ℕ, String, Bool, true, false, not, Option, none, some, List, [], ◌∷◌, ◌++◌, map, ◌&&◌, ◌||◌, ◌==◌,
  if◌then◌else◌, length,
}
use lit_trace.Json.{Json, null, Json, Fields, end, field, get, num, str, set}

-- The fields of `PaperMetadata` that this code reads.
pub record Paper : Type 0 where
  pub paper_id : String
  pub title : String
  pub journal : Option String
  pub publisher : Option String
  pub doi : Option String
  pub source_urls : List String
  pub pdf_url : Option String

-- `LiteratureContext`; the filters are the dict that `model_dump` gives.
pub record LiteratureContext : Type 0 where
  pub visible_to_user : Bool
  pub active_papers : List String
  pub excluded_papers : List String
  pub pinned_papers : List String
  pub importance_levels : List (String × ℕ)
  pub selected_for_download : List String
  pub filters : Fields

pub record ContextUpdate : Type 0 where
  pub visible_to_user : Option Bool
  pub include_paper_ids : List String
  pub exclude_paper_ids : List String
  pub pin_paper_ids : List String
  pub unpin_paper_ids : List String
  pub select_for_download : List String
  pub deselect_for_download : List String
  pub filters : Option Fields

-- `item in items`
unfoldable pub contains : String → List String → Bool
contains item [] = false
contains item (x ∷ xs) = (x == item) || contains item xs

unfoldable pub append_unique : String → List String → List String
unfolding contains
append_unique item items = if contains item items then items else items ++ item ∷ []

-- `items.remove(item)` takes the first occurrence only.
unfoldable pub remove : String → List String → List String
remove item [] = []
remove item (x ∷ xs) = let rest = remove item xs in if x == item then xs else x ∷ rest

-- The loops of `apply_context_update`, each over its list of identifiers.
unfoldable pub include_papers : List String → LiteratureContext → LiteratureContext
unfolding remove append_unique
include_papers [] c = c
include_papers (id ∷ ids) c = include_papers ids (record c {
  excluded_papers = remove id c.excluded_papers;
  active_papers = append_unique id c.active_papers;
})

unfoldable pub exclude_papers : List String → LiteratureContext → LiteratureContext
unfolding remove append_unique
exclude_papers [] c = c
exclude_papers (id ∷ ids) c = exclude_papers ids (record c {
  active_papers = remove id c.active_papers;
  pinned_papers = remove id c.pinned_papers;
  selected_for_download = remove id c.selected_for_download;
  excluded_papers = append_unique id c.excluded_papers;
})

unfoldable pub pin_papers : List String → LiteratureContext → LiteratureContext
unfolding contains append_unique
pin_papers [] c = c
pin_papers (id ∷ ids) c = pin_papers ids (record c {
  pinned_papers =
      if contains id c.active_papers then append_unique id c.pinned_papers else c.pinned_papers;
})

unfoldable pub unpin_papers : List String → LiteratureContext → LiteratureContext
unfolding remove
unpin_papers [] c = c
unpin_papers (id ∷ ids) c =
    unpin_papers ids (record c { pinned_papers = remove id c.pinned_papers })

-- `papers` are the keys of `workspace.papers`.
unfoldable pub select_papers : List String → List String → LiteratureContext → LiteratureContext
unfolding contains append_unique
select_papers papers [] c = c
select_papers papers (id ∷ ids) c = select_papers papers ids (record c {
  selected_for_download =
      if contains id papers && not (contains id c.excluded_papers)
      then append_unique id c.selected_for_download
      else c.selected_for_download;
})

unfoldable pub deselect_papers : List String → LiteratureContext → LiteratureContext
unfolding remove
deselect_papers [] c = c
deselect_papers (id ∷ ids) c =
    deselect_papers ids (record c { selected_for_download = remove id c.selected_for_download })

abbrev pub or_visible : Option Bool → Bool → Bool
or_visible none b = b
or_visible (some v) b = v

abbrev pub is_null : Json → Bool
is_null null = true
is_null _ = false

-- `known` are the fields of `WorkspaceFilters`; `validate` is `model_validate` of a dict, as a dict.
module _ (known : List String) (validate : Fields → Fields) where
  abbrev pub only_known : Fields → Fields
  only_known end = end
  only_known (field k v fs) = if contains k known then field k v (only_known fs) else only_known fs

  -- `{**filters, **updates}`
  abbrev pub merged : Fields → Fields → Fields
  merged filters end = filters
  merged filters (field k v fs) = merged (set k v filters) fs

  abbrev pub set_all : Fields → Fields → Fields → Fields
  set_all validated end filters = filters
  set_all validated (field k v fs) filters = elim (get k validated) [
    | none ↦ set_all validated fs filters
    | some w ↦ set_all validated fs (set k w filters)
  ]

  unfoldable pub merge_filters : Fields → Fields → Fields
  unfolding contains
  merge_filters filters updates =
      let fs = only_known updates in set_all (validate (merged filters fs)) fs filters

  -- `model_dump(exclude_none=True)`, of the fields of a `WorkspaceFilters`: an unset field is no update. A null
  -- inside a field's own value is left to `validate`.
  abbrev pub exclude_none : Fields → Fields
  exclude_none end = end
  exclude_none (field k v fs) =
      let rest = exclude_none fs in if is_null v then rest else field k v rest

  abbrev pub merge_update : Option Fields → Fields → Fields
  merge_update none filters = filters
  merge_update (some fs) filters = merge_filters filters (exclude_none fs)

  unfoldable pub apply_context_update :
      List String → ContextUpdate → LiteratureContext → LiteratureContext
  apply_context_update papers u c = deselect_papers u.deselect_for_download (
      select_papers papers u.select_for_download (
        unpin_papers u.unpin_paper_ids (
          pin_papers u.pin_paper_ids (
            exclude_papers u.exclude_paper_ids (
              include_papers u.include_paper_ids (record c {
                visible_to_user = or_visible u.visible_to_user c.visible_to_user;
                filters = merge_update u.filters c.filters;
              }))))))
