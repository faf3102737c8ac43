-- ===== src/Retrieval/Samples.antt =====
-- The theorems about retrieval at three records of two papers.
use lit_trace.Base.{false, none, some, [], ◌∷◌}
use lit_trace.Retrieval.{PaperMetadata, open_access, requires_login, Texts, merge_papers}
use lit_trace.Retrieval.Kept.{IsMerged, merge_papers-IsMerged}
use lit_trace.Retrieval.Select.{PaperSearchRequest, Scores, select_context_papers}
use lit_trace.Retrieval.Bounds.{AreBest, pool, select_context_papers-AreBest}
use lit_trace.Retrieval.Rounds.{Pool, no_papers}

abbrev plain : Texts
plain = record {
  lower = λ s. s;
  title_key = λ s. s;
  title_tokens = λ s. s ∷ [];
  last_name = λ s. s;
}

abbrev first_paper : PaperMetadata
first_paper = record {
  object_id = none;
  paper_id = "a";
  title = "carbon";
  authors = "A" ∷ [];
  year = some 2024;
  journal = none;
  publisher = none;
  doi = some "10.1/a";
  abstract = none;
  citation_count = none;
  source_urls = [];
  pdf_url = none;
  access_type = requires_login;
  relevance_score = none;
  recency_score = none;
}

-- The same paper from a source that has no DOI, and another one.
abbrev untagged : PaperMetadata
untagged = record first_paper { paper_id = "b"; doi = none; access_type = open_access }

abbrev second_paper : PaperMetadata
second_paper = record first_paper { paper_id = "c"; title = "graphene"; doi = some "10.1/c" }

abbrev request : PaperSearchRequest
request = record {
  topic = "carbon";
  year_min = some 2023;
  limit = 40;
  retrieval_limit = some 2;
  source_limit = none;
  min_relevant_results = 1;
  query_variants = [];
}

abbrev even : Scores
even = record {
  relevance = λ s p. 500000;
  recency = λ y. 1000000;
  context_relevance = λ r p. 500000;
  is_noise = λ s p. false;
  is_irrelevant = λ s p. false;
}

abbrev found : PaperSearchRequest → Pool
found r = record no_papers { openalex = first_paper ∷ untagged ∷ []; crossref = second_paper ∷ [] }

merge_papers-IsMerged_example :
    IsMerged plain
      (first_paper ∷ untagged ∷ second_paper ∷ [])
      (merge_papers plain (first_paper ∷ untagged ∷ second_paper ∷ []))
merge_papers-IsMerged_example =
    merge_papers-IsMerged plain (first_paper ∷ untagged ∷ second_paper ∷ [])

select_context_papers-AreBest_example :
    AreBest 15
      (pool even (first_paper ∷ second_paper ∷ []) request 15)
      (select_context_papers even (first_paper ∷ second_paper ∷ []) request 15)
select_context_papers-AreBest_example =
    select_context_papers-AreBest even (first_paper ∷ second_paper ∷ []) request 15
