-- ===== src/Jobs/Table/Merge.antt =====
-- Which cells a workspace has after a merge of tables.
use lit_trace.Base.{
  ℕ, String, ◌≡◌, refl, Bool, not, List, [], ◌∷◌, ◌++◌, ◌==◌, arith, eq_iff, Bool-cases, inl, inr,
  ==→≡, if◌then◌else◌,
}
use lit_trace.Base.Table.{select}
use mathlib.Core.List.{append-nil}
use lit_trace.Jobs.Table.{
  PerformanceCell, TableWorkspace, TableExecutionOutput, TableLibrary, merge_tables,
}

abbrev pub cells_of : String → List PerformanceCell → List PerformanceCell
cells_of id cs = select (λ c. c.paper_id == id) cs

cells_of-append :
    (id : String) (cs ds : List PerformanceCell)
    → cells_of id (cs ++ ds) ≡ cells_of id cs ++ cells_of id ds
unfolding select
cells_of-append id [] ds = refl
cells_of-append id (c ∷ cs) ds = ground (arith, cells_of-append id cs ds)

-- A selection by the paper keeps all the cells of a paper, or none.
cells_of-select :
    (valid : String → Bool) (id : String) (cs : List PerformanceCell)
    → cells_of id (select (λ c. valid c.paper_id) cs) ≡ (if valid id then cells_of id cs else [])
unfolding select
cells_of-select valid id [] = ground arith
cells_of-select valid id (c ∷ cs) = elim (Bool-cases (c.paper_id == id)) [
  | inl same ↦
      let eq = ==→≡ c.paper_id id same in
      rw (eq) (ground (arith, cells_of-select valid id cs, eq_iff id id))
  | inr other ↦ ground (arith, cells_of-select valid id cs)
]

-- After a merge the cells of a paper are those of the output, if the paper is valid, and otherwise
-- those that the workspace had.
pub merge_tables-cells_of :
    (lib : TableLibrary) (ws : TableWorkspace) (output : TableExecutionOutput)
    (valid : String → Bool) (revision : ℕ) (id : String)
    → cells_of id (merge_tables lib ws output valid revision).performance_cells ≡ (
        if valid id then cells_of id output.performance_cells else cells_of id ws.performance_cells)
unfolding merge_tables
merge_tables-cells_of lib ws output valid revision id =
    rw
      (
        cells_of-append id (select (λ c. not (valid c.paper_id)) ws.performance_cells)
            (select (λ c. valid c.paper_id) output.performance_cells),
        cells_of-select (λ p. not (valid p)) id ws.performance_cells,
        cells_of-select valid id output.performance_cells,
      )
      (elim (Bool-cases (valid id)) [
        | inl yes_valid ↦ rw yes_valid refl
        | inr not_valid ↦ rw not_valid (append-nil (cells_of id ws.performance_cells))
      ])
