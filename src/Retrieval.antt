-- ===== src/Retrieval.antt =====
-- retrieval/search.py: the merge of papers from several sources and the limits of a search. Scores, floats
-- in the source, are whole numbers of millionths; years are numbers of the common era.

pub mod Merge
pub mod Kept
pub mod Select
pub mod Rounds
pub mod Bounds
pub mod Stops
pub mod Samples
use lit_trace.Base.Unique.{is_in}
use lit_trace.Base.{
  ℕ, ◌+◌, ◌-◌, ◌*◌, String, Bool, true, false, not, Option, none, some, List, [], ◌∷◌, ◌++◌, ◌&&◌,
  ◌||◌, ◌==◌, if◌then◌else◌, suc, leb, ltb, nat_eq, is_none, length, max, min,
}
use lit_trace.Base.Words.{codes, split_from, same_codes}

pub data AccessType : Type 0 where
  open_access requires_login unavailable user_upload : AccessType

abbrev pub is_open : AccessType → Bool
is_open open_access = true
is_open _ = false

abbrev pub is_login : AccessType → Bool
is_login requires_login = true
is_login _ = false

-- `object_id` tells the objects apart that the source refers to from several lists and changes in place; it
-- is none for an object that only one list holds.
pub record PaperMetadata : Type 0 where
  pub object_id : Option ℕ
  pub paper_id : String
  pub title : String
  pub authors : List String
  pub year : Option ℕ
  pub journal : Option String
  pub publisher : Option String
  pub doi : Option String
  pub abstract : Option String
  pub citation_count : Option ℕ
  pub source_urls : List String
  pub pdf_url : Option String
  pub access_type : AccessType
  pub relevance_score : Option ℕ
  pub recency_score : Option ℕ

-- `bool(s)` of an optional text.
abbrev pub holds : Option String → Bool
holds none = false
holds (some s) = not (s == "")

abbrev pub counts : Option ℕ → Bool
counts none = false
counts (some n) = not (nat_eq n 0)

-- `left if left not in (None, [], "") else (right or left)`
abbrev pub fill_text : (left right : Option String) → Option String
fill_text left right = if not (holds left) && holds right then right else left

abbrev pub fill_number : (left right : Option ℕ) → Option ℕ
fill_number left right = if is_none left && counts right then right else left

abbrev pub fill_list : (left right : List String) → List String
fill_list [] right = right
fill_list (x ∷ xs) right = x ∷ xs

-- `list(set(xs))`, whose order is not specified: here that of the last occurrences.
unfoldable pub dedupe : List String → List String
dedupe [] = []
dedupe (x ∷ xs) = let rest = dedupe xs in if is_in x xs then rest else x ∷ rest

abbrev pub merge_access : (left right : AccessType) → AccessType
merge_access left right =
    if is_open right
    then open_access
    else if not (is_open left) && is_login right
    then requires_login
    else left

-- `PaperMetadata.model_validate(data)` makes a new object.
unfoldable pub merge_paper : (left right : PaperMetadata) → PaperMetadata
unfolding dedupe
merge_paper l r = record l {
  object_id = none;
  authors = fill_list l.authors r.authors;
  year = fill_number l.year r.year;
  journal = fill_text l.journal r.journal;
  publisher = fill_text l.publisher r.publisher;
  doi = fill_text l.doi r.doi;
  abstract = fill_text l.abstract r.abstract;
  citation_count = fill_number l.citation_count r.citation_count;
  pdf_url = fill_text l.pdf_url r.pdf_url;
  relevance_score = fill_number l.relevance_score r.relevance_score;
  recency_score = fill_number l.recency_score r.recency_score;
  source_urls = dedupe (l.source_urls ++ r.source_urls);
  access_type = merge_access l.access_type r.access_type;
}

-- What the merge reads of texts: the lower case, the key of a title, its tokens, and the last name of an
-- author in lower case. Regular expressions and Unicode tables are the language's.
pub record Texts : Type 0 where
  pub lower : String → String
  pub title_key : String → String
  pub title_tokens : String → List String
  pub last_name : String → String

abbrev pub shared : (xs ys : List String) → ℕ
shared [] ys = 0
shared (x ∷ xs) ys = let rest = shared xs ys in if is_in x ys then suc rest else rest

-- `overlap >= n / 100`, of sets without repetitions: the intersection over the union.
abbrev pub overlaps : ℕ → (xs ys : List String) → Bool
overlaps percent xs ys =
    leb (percent * max (length xs + length ys - shared xs ys) 1) (100 * shared xs ys)

-- `paper.year and existing.year and abs(…) > 1`
abbrev pub years_apart : (a b : Option ℕ) → Bool
years_apart (some a) (some b) =
    not (nat_eq a 0) && (not (nat_eq b 0) && (ltb (b + 1) a || ltb (a + 1) b))
years_apart _ _ = false

abbrev pub same_last_name : (String → String) → (xs ys : List String) → Bool
same_last_name last_name (x ∷ xs) (y ∷ ys) = last_name x == last_name y
same_last_name last_name _ _ = false

abbrev pub Merged : Type 0
Merged = List (String × PaperMetadata)

abbrev pub key_in : String → Merged → Option PaperMetadata
key_in k [] = none
key_in k (e ∷ es) = if e.0 == k then some e.1 else key_in k es

-- `merged[key] = paper`
abbrev pub put_paper : String → PaperMetadata → Merged → Merged
put_paper k p [] = (k, p) ∷ []
put_paper k p (e ∷ es) = if e.0 == k then (k, p) ∷ es else e ∷ put_paper k p es

abbrev pub papers_of : Merged → List PaperMetadata
papers_of [] = []
papers_of (e ∷ es) = e.1 ∷ papers_of es

module _ (t : Texts) where
  open t use {lower, title_key, title_tokens, last_name}

  -- An entry that a paper without a DOI may be the same as.
  abbrev pub is_fuzzy_match : PaperMetadata → PaperMetadata → Bool
  is_fuzzy_match p q =
      not (years_apart p.year q.year)
      && (overlaps 82 (title_tokens p.title) (title_tokens q.title)
          || (overlaps 68 (title_tokens p.title) (title_tokens q.title)
              && same_last_name last_name p.authors q.authors))

  abbrev pub fuzzy_among : PaperMetadata → Merged → Option String
  fuzzy_among p [] = none
  fuzzy_among p (e ∷ es) = if is_fuzzy_match p e.1 then some e.0 else fuzzy_among p es

  unfoldable pub find_fuzzy_title_key : Merged → PaperMetadata → Option String
  find_fuzzy_title_key merged p = elim (title_tokens p.title) [
    | [] ↦ none
    | x ∷ xs ↦ fuzzy_among p merged
  ]

  -- `paper.doi.lower() if paper.doi else _title_key(paper.title)`
  abbrev pub own_key : PaperMetadata → Option String → String
  own_key p (some d) = if d == "" then title_key p.title else lower d
  own_key p none = title_key p.title

  -- The found key, unless there is none or it is empty.
  abbrev pub or_key : Option String → String → String
  or_key none k = k
  or_key (some j) k = if j == "" then k else j

  unfoldable pub merge_key : Merged → PaperMetadata → String
  unfolding find_fuzzy_title_key
  merge_key merged p =
      if is_none p.doi
      then or_key (find_fuzzy_title_key merged p) (own_key p p.doi)
      else own_key p p.doi

  unfoldable pub merge_one : Merged → PaperMetadata → Merged
  unfolding merge_key merge_paper
  merge_one merged p =
      let k = merge_key merged p in
      elim (key_in k merged) [
        | none ↦ put_paper k p merged
        | some q ↦ put_paper k (merge_paper q p) merged
      ]

  unfoldable pub merge_all : Merged → List PaperMetadata → Merged
  unfolding merge_one
  merge_all merged [] = merged
  merge_all merged (p ∷ ps) = merge_all (merge_one merged p) ps

  unfoldable pub merge_papers : List PaperMetadata → List PaperMetadata
  unfolding merge_all
  merge_papers ps = papers_of (merge_all [] ps)
