-- ===== src/Retrieval/Bounds.antt =====
-- What a search brings: how many papers, of how many variants, in which order.
use lit_trace.Base.{
  ℕ, ◌≡◌, refl, ap, Bool, [], ◌∷◌, ◌++◌, zero, suc, drop, map, if◌then◌else◌, true, false, List,
  arith, Bool-cases, inl, inr, length, take, length-take, min, leb, ltb, nat_eq, ◌&&◌, ◌||◌,
}
use lit_trace.Base.All.{All, All-drop}
use lit_trace.Base.Order.{IsOrdered, IsOrdered-take, IsOrdered-select, IsOrdered-sort_by}
use mathlib.Core.List.{Perm}
use lit_trace.Base.Perms.{Perm-length, Perm-sort_by, Perm-select_sort_by}
use lit_trace.Base.Table.{select}
use lit_trace.Retrieval.{PaperMetadata}
use lit_trace.Retrieval.Select.{
  PaperSearchRequest, Scores, rank_papers, ranks_before, or_zero, is_strong, scored,
  select_context_papers,
}

ranks_before_total : (p q : PaperMetadata) → ranks_before p q ≡ false → ranks_before q p ≡ true
ranks_before_total p q h = ground arith

-- One level of a lexicographic order, greatest first.
abbrev level : (a b : ℕ) → Bool → Bool
level a b rest = ltb b a || (nat_eq a b && rest)

level_trans :
    (a b c : ℕ) (p q r : Bool)
    → (p ≡ true → q ≡ true → r ≡ true)
    → level a b p ≡ true
    → level b c q ≡ true
    → level a c r ≡ true
level_trans a b c p q true k h h' = ground arith
level_trans a b c p q false k h h' = ground (arith, k)

leb_trans : (a b c : ℕ) → leb b a ≡ true → leb c b ≡ true → leb c a ≡ true
leb_trans a b c h k = ground arith

ranks_before_trans :
    (p q r : PaperMetadata)
    → ranks_before p q ≡ true
    → ranks_before q r ≡ true
    → ranks_before p r ≡ true
ranks_before_trans p q r h k =
    level_trans (or_zero p.relevance_score) (or_zero q.relevance_score) (or_zero r.relevance_score)
      _ _ _
      (level_trans (or_zero p.year) (or_zero q.year) (or_zero r.year) _ _ _ (
        leb_trans (or_zero p.citation_count) (or_zero q.citation_count) (or_zero r.citation_count)))
      h k

All-drop-take :
    (n : ℕ) (xs : List PaperMetadata)
    → IsOrdered ranks_before xs
    → All (λ p. All (λ q. ranks_before p q ≡ true) (drop n xs)) (take n xs)
All-drop-take zero xs h = tt
All-drop-take (suc n) [] h = tt
All-drop-take (suc n) (x ∷ xs) h =
    (All-drop (λ y. ranks_before x y ≡ true) n xs h.0, All-drop-take n xs h.1)

append-take : (n : ℕ) (xs : List PaperMetadata) → take n xs ++ drop n xs ≡ xs
append-take zero xs = refl
append-take (suc n) [] = refl
append-take (suc n) (x ∷ xs) = ap (λ ys. x ∷ ys) (append-take n xs)

-- The best of a list: what is chosen, in the order of the ranking, and what is left over make up the list;
-- no more than `limit` are chosen, and fewer only if there are no more; and nothing that is left over
-- ranks before what is chosen.
pub record AreBest (limit : ℕ) (pool chosen : List PaperMetadata) : Type 0 where
  pub left_over : List PaperMetadata
  pub makes_up : Perm (chosen ++ left_over) pool
  pub full : length chosen ≡ min limit (length pool)
  pub ordered : IsOrdered ranks_before chosen
  pub best : All (λ p. All (λ q. ranks_before p q ≡ true) left_over) chosen

take-AreBest :
    (limit : ℕ) (pool sorted : List PaperMetadata)
    → IsOrdered ranks_before sorted
    → Perm sorted pool
    → AreBest limit pool (take limit sorted)
take-AreBest limit pool sorted h k = record {
  left_over = drop limit sorted;
  makes_up = rw (append-take limit sorted) k;
  full = omega (arith, length-take limit sorted, Perm-length sorted pool k);
  ordered = IsOrdered-take ranks_before limit sorted h;
  best = All-drop-take limit sorted h;
}

module _ (s : Scores) (ps : List PaperMetadata) (r : PaperSearchRequest) (limit : ℕ) where
  -- The papers as they are given, with their scores, and the strong ones among them.
  abbrev pub all_papers : List PaperMetadata
  all_papers = map (scored s r) ps

  abbrev pub strong_papers : List PaperMetadata
  strong_papers = select (is_strong s r) all_papers

  -- The papers that a selection is made from.
  abbrev pub pool : List PaperMetadata
  pool =
      if leb (min r.min_relevant_results limit) (length strong_papers)
      then strong_papers
      else all_papers

  rank_papers-IsOrdered : IsOrdered ranks_before (rank_papers s ps r)
  unfolding rank_papers
  rank_papers-IsOrdered = IsOrdered-sort_by ranks_before ranks_before_total ranks_before_trans _

  Perm-rank_papers : Perm (rank_papers s ps r) all_papers
  unfolding rank_papers
  Perm-rank_papers = Perm-sort_by ranks_before all_papers

  Perm-strong : Perm (select (is_strong s r) (rank_papers s ps r)) strong_papers
  unfolding rank_papers
  Perm-strong = Perm-select_sort_by ranks_before (is_strong s r) all_papers

  -- The selection for the context is the best of the papers, in the order of the ranking: of the strong
  -- papers, if there are at least as many of them as the smaller of the limit and the demanded number
  -- of relevant results, and otherwise of all papers; it is as many as the limit, or all if they are fewer.
  pub select_context_papers-AreBest : AreBest limit pool (select_context_papers s ps r limit)
  unfolding select_context_papers
  select_context_papers-AreBest =
      let same = Perm-length _ _ Perm-strong in
      let strong =
        take-AreBest limit strong_papers _
          (IsOrdered-select ranks_before (is_strong s r) _ rank_papers-IsOrdered) Perm-strong in
      let all = take-AreBest limit all_papers _ rank_papers-IsOrdered Perm-rank_papers in
      elim (Bool-cases (leb (min r.min_relevant_results limit) (length strong_papers))) [
        | inl many ↦ rw (same, many) strong
        | inr few ↦ rw (same, few) all
      ]
