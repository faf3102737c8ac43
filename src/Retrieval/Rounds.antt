-- ===== src/Retrieval/Rounds.antt =====
-- retrieval/search.py `LiveSearchClient.search`: rounds of two variants of the query until enough papers
-- are ready for the context, and the cut of the candidates. Every round ranks the papers of the pool in
-- place, so that a later round starts from the scores that the earlier ones wrote. What a source answers,
-- an empty list where it fails, what Unpaywall adds and the order that a model gives are parameters; a
-- search that its time limit cuts off is not modelled.
use lit_trace.Base.{
  ℕ, ◌+◌, ◌*◌, String, Bool, false, Option, none, some, List, [], ◌∷◌, ◌++◌, if◌then◌else◌, length,
  take, map, max, min, nat_eq, find,
}
use lit_trace.Base.Table.{select}
use lit_trace.Retrieval.{PaperMetadata, Texts, merge_papers}
use lit_trace.Retrieval.Select.{
  PaperSearchRequest, Scores, retrieval_limit_of, has_enough_relevant_results, variant_requests,
  rank_papers, filter_search_results, is_strong,
}

-- What the sources answer, and what was fetched, by source, in the order of the variants. `objects` is the
-- number of papers so far, each an object of its own.
pub record Pool : Type 0 where
  pub openalex : List PaperMetadata
  pub crossref : List PaperMetadata
  pub arxiv : List PaperMetadata
  pub supplemental : List PaperMetadata
  pub objects : ℕ

abbrev pub no_papers : Pool
no_papers = record { openalex = []; crossref = []; arxiv = []; supplemental = []; objects = 0 }

-- The papers of an answer are new objects.
abbrev pub numbered : ℕ → List PaperMetadata → List PaperMetadata
numbered n [] = []
numbered n (p ∷ ps) = record p { object_id = some n } ∷ numbered (n + 1) ps

abbrev pub extend : Pool → Pool → Pool
extend p f =
    let c = p.objects + length f.openalex in
    let a = c + length f.crossref in
    let s = a + length f.arxiv in
    record {
      openalex = p.openalex ++ numbered p.objects f.openalex;
      crossref = p.crossref ++ numbered c f.crossref;
      arxiv = p.arxiv ++ numbered a f.arxiv;
      supplemental = p.supplemental ++ numbered s f.supplemental;
      objects = s + length f.supplemental;
    }

abbrev pub all_results : Pool → List PaperMetadata
all_results p = p.openalex ++ (p.crossref ++ (p.arxiv ++ p.supplemental))

abbrev pub same_object : Option ℕ → Option ℕ → Bool
same_object (some a) (some b) = nat_eq a b
same_object _ _ = false

-- A paper as it is after the papers of a list were written, if it is one of them.
abbrev pub as_written : List PaperMetadata → PaperMetadata → PaperMetadata
as_written written p = elim (find (λ w. same_object w.object_id p.object_id) written) [
  | some w ↦ w
  | none ↦ p
]

abbrev pub write_back : List PaperMetadata → Pool → Pool
write_back written p = record p {
  openalex = map (as_written written) p.openalex;
  crossref = map (as_written written) p.crossref;
  arxiv = map (as_written written) p.arxiv;
  supplemental = map (as_written written) p.supplemental;
}

-- `requests[next_offset:next_offset + 2]`, for every offset.
abbrev pub batches : List PaperSearchRequest → List (List PaperSearchRequest)
batches [] = []
batches (v ∷ []) = (v ∷ []) ∷ []
batches (v ∷ w ∷ vs) = (v ∷ w ∷ []) ∷ batches vs

-- The year that the source has for the current one.
abbrev pub current_year : ℕ
current_year = 2026

module _ (t : Texts) (s : Scores) (r : PaperSearchRequest) where
  unfoldable pub candidates : Pool → List PaperMetadata
  unfolding merge_papers filter_search_results
  candidates p = filter_search_results s current_year (merge_papers t (all_results p)) r

  -- The ranking of the papers so far: the pool with the scores written, and how many of the papers are
  -- ready for the context.
  unfoldable pub rank_pool : Pool → Pool × ℕ
  unfolding candidates rank_papers find
  rank_pool p =
      let relevant = rank_papers s (candidates p) r in
      (write_back relevant p, length (select (is_strong s r) relevant))

  abbrev pub enough : ℕ → Bool
  enough ready = has_enough_relevant_results ready r

  module _ (fetch : PaperSearchRequest → Pool) where
    abbrev pub fetch_batch : List PaperSearchRequest → Pool → Pool
    fetch_batch [] p = p
    fetch_batch (v ∷ vs) p = fetch_batch vs (extend p (fetch v))

    -- The pool at the end of the loop, and the number of variants that were fetched.
    unfoldable pub rounds : List (List PaperSearchRequest) → Pool → ℕ → Pool × ℕ
    unfolding rank_pool has_enough_relevant_results
    rounds [] p n = (p, n)
    rounds (b ∷ bs) p n =
        let ranked = rank_pool (fetch_batch b p) in
        let more = rounds bs ranked.0 (n + length b) in
        if enough ranked.1 then (ranked.0, n + length b) else more

    module _ (enrich : Option (List PaperMetadata → List PaperMetadata))
        (rerank : List PaperMetadata → List PaperMetadata) where
      abbrev pub candidate_limit : ℕ
      candidate_limit = min (max (retrieval_limit_of r) (r.min_relevant_results * 2)) 100

      -- With an address for Unpaywall, the candidates are ranked and what it adds is added.
      abbrev pub enriched : List PaperMetadata → List PaperMetadata
      enriched merged = elim enrich [ some add ↦ add (rank_papers s merged r) | none ↦ merged ]

      -- The papers of the result, and the number of variants that were fetched.
      unfoldable pub search : (squeezed : String) → List PaperMetadata × ℕ
      unfolding rounds candidates variant_requests retrieval_limit_of
      search squeezed =
          let done = rounds (batches (variant_requests squeezed r)) no_papers 0 in
          (take candidate_limit (rerank (rank_papers s (enriched (candidates done.0)) r)), done.1)
