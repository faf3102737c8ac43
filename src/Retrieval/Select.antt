-- ===== src/Retrieval/Select.antt =====
-- retrieval/search.py: the ranking, the filter and the selection of papers, and the limits of a search.
use lit_trace.Base.Unique.{first_occurrences, is_in}
use lit_trace.Base.{
  is_empty, ℕ, ◌*◌, String, Bool, true, false, not, Option, none, some, List, [], ◌∷◌, ◌&&◌, ◌||◌,
  ◌==◌, if◌then◌else◌, leb, ltb, nat_eq, is_none, length, take, max, min, map,
}
use lit_trace.Base.Table.{select}
use lit_trace.Base.Sort.{sort_by}
use lit_trace.Retrieval.{PaperMetadata}

-- The fields of `PaperSearchRequest` that the search reads.
pub record PaperSearchRequest : Type 0 where
  pub topic : String
  pub year_min : Option ℕ
  pub limit : ℕ
  pub retrieval_limit : Option ℕ
  pub source_limit : Option ℕ
  pub min_relevant_results : ℕ
  pub query_variants : List String

-- `max(1, int(retrieval_limit or limit))`
abbrev pub or_number : Option ℕ → ℕ → ℕ
or_number none d = d
or_number (some n) d = if nat_eq n 0 then d else n

unfoldable pub retrieval_limit_of : PaperSearchRequest → ℕ
retrieval_limit_of r = max 1 (or_number r.retrieval_limit r.limit)

unfoldable pub source_limit_of : PaperSearchRequest → (legacy_floor maximum : ℕ) → ℕ
source_limit_of r legacy_floor maximum = elim r.source_limit [
  | some n ↦ min (max 1 n) maximum
  | none ↦ min (max r.limit legacy_floor) maximum
]

-- On the number of papers, which is all that the source reads of them.
unfoldable pub has_enough_relevant_results : ℕ → PaperSearchRequest → Bool
unfolding retrieval_limit_of
has_enough_relevant_results n r =
    if is_none r.retrieval_limit
    then if ltb n r.min_relevant_results
      then false
      else if leb r.limit n
      then true
      else leb (min r.limit (max (r.min_relevant_results * 4) 20)) n
    else if ltb n r.min_relevant_results
    then false
    else if leb (retrieval_limit_of r) n
    then true
    else leb (min (retrieval_limit_of r) (max (r.min_relevant_results * 2) 5)) n

-- `squeezed` is the topic with its white space made single and stripped, of `build_query_variants`.
unfoldable pub build_query_variants : (squeezed : String) → List String
build_query_variants squeezed = if squeezed == "" then [] else squeezed ∷ []

abbrev pub variants_of : (squeezed : String) → PaperSearchRequest → List String
variants_of squeezed r =
    let asked =
      if is_empty r.query_variants then build_query_variants squeezed else r.query_variants in
    if is_in r.topic asked then asked else r.topic ∷ asked

unfoldable pub variant_requests : (squeezed : String) → PaperSearchRequest → List PaperSearchRequest
unfolding first_occurrences build_query_variants
variant_requests squeezed r =
    map (λ v. record r { topic = v; query_variants = [] })
      (take 10 (first_occurrences [] (variants_of squeezed r)))

-- The scores, which the source computes in floats: those that the ranking writes, the context relevance
-- in millionths, and the tests that a noisy or irrelevant paper fails.
pub record Scores : Type 0 where
  pub relevance : String → PaperMetadata → ℕ
  pub recency : Option ℕ → ℕ
  pub context_relevance : PaperSearchRequest → PaperMetadata → ℕ
  pub is_noise : String → PaperMetadata → Bool
  pub is_irrelevant : String → PaperMetadata → Bool

-- `x or 0`
abbrev pub or_zero : Option ℕ → ℕ
or_zero none = 0
or_zero (some n) = n

-- The order of the sort key, greatest first.
abbrev pub ranks_before : (p q : PaperMetadata) → Bool
ranks_before p q =
    let a = or_zero p.relevance_score in
    let b = or_zero q.relevance_score in
    let y = or_zero p.year in
    let z = or_zero q.year in
    ltb b a
    || (nat_eq a b
        && (ltb z y || (nat_eq y z && leb (or_zero q.citation_count) (or_zero p.citation_count))))

module _ (s : Scores) where
  open s use {relevance, recency, context_relevance, is_noise, is_irrelevant}

  abbrev pub scored : PaperSearchRequest → PaperMetadata → PaperMetadata
  scored r p =
      let p' = record p { recency_score = some (recency p.year) } in
      record p' { relevance_score = some (relevance r.topic p') }

  -- The source writes the scores into the papers that it is given: these are the papers of the result.
  unfoldable pub rank_papers : List PaperMetadata → PaperSearchRequest → List PaperMetadata
  rank_papers ps r = sort_by ranks_before (map (scored r) ps)

  -- The tests on the year, and the others.
  abbrev pub in_years : ℕ → Option ℕ → Option ℕ → Bool
  in_years current_year year_min none = true
  in_years current_year none (some y) = leb y current_year
  in_years current_year (some low) (some y) = leb y current_year && leb low y

  abbrev pub is_candidate : ℕ → PaperSearchRequest → PaperMetadata → Bool
  is_candidate current_year r p =
      not (is_noise r.topic p)
      && (in_years current_year r.year_min p.year && not (is_irrelevant r.topic p))

  unfoldable pub filter_search_results :
      ℕ → List PaperMetadata → PaperSearchRequest → List PaperMetadata
  filter_search_results current_year ps r = select (is_candidate current_year r) ps

  -- `_context_relevance_score(…) >= 0.45`
  abbrev pub is_strong : PaperSearchRequest → PaperMetadata → Bool
  is_strong r p = leb 450000 (context_relevance r p)

  unfoldable pub select_context_papers :
      List PaperMetadata → PaperSearchRequest → ℕ → List PaperMetadata
  unfolding rank_papers
  select_context_papers ps r limit =
      let ranked = rank_papers ps r in
      let strong = select (is_strong r) ranked in
      if leb (min r.min_relevant_results limit) (length strong)
      then take limit strong
      else take limit ranked
