-- ===== src/Context/Papers.antt =====
-- identity.py and the additions of context.py: the papers of a workspace and their canonical works.
-- Parameters stand for the libraries: `digest` for SHA-256, `strip_lower` and `words` for the text functions on a DOI
-- and on a title, `dump` for `model_dump_json`.
use lit_trace.Base.{
  ℕ, String, Bool, not, Option, none, some, List, [], ◌∷◌, ◌++◌, map, ◌&&◌, ◌==◌, is_none,
  first_chars, join, if◌then◌else◌, length, find, exists, update, select,
}
use lit_trace.Json.{Fields, num, str, list, Items, nil, cons, end, field}
use lit_trace.Context.{Paper, LiteratureContext, contains, append_unique, merge_filters}

pub record CanonicalWork : Type 0 where
  pub work_id : String
  pub canonical_paper_id : String
  pub doi : Option String
  pub version_paper_ids : List String

pub record SourceRecord : Type 0 where
  pub source_record_id : String
  pub paper_id : String
  pub source_name : String
  pub source_url : Option String
  pub content_hash : String

pub record ResolutionDecision : Type 0 where
  pub decision_id : String
  pub canonical_work_id : String
  pub candidate_paper_ids : List String
  pub strategy : String
  -- In hundredths.
  pub confidence : ℕ
  pub reason : String

-- The parts of `LiteratureWorkspace` that this code writes; a dict is the list of its values.
pub record Workspace : Type 0 where
  pub context : LiteratureContext
  pub papers : List Paper
  pub source_records : List SourceRecord
  pub canonical_works : List CanonicalWork
  pub resolution_decisions : List ResolutionDecision

-- A text that is there and not empty, as Python's truth has it.
abbrev pub truthy : Option String → Option String
truthy none = none
truthy (some s) = if s == "" then none else some s

abbrev pub or_text : Option String → String → String
or_text none d = d
or_text (some s) d = s

abbrev pub first : List String → Option String
first [] = none
first (s ∷ ss) = some s

abbrev pub of_work : String → CanonicalWork → Bool
of_work id w = w.work_id == id

abbrev pub of_source : String → SourceRecord → Bool
of_source id r = r.source_record_id == id

abbrev pub of_decision : String → ResolutionDecision → Bool
of_decision id d = d.decision_id == id

abbrev pub of_paper : String → Paper → Bool
of_paper id p = p.paper_id == id

abbrev pub strategy : Paper → String
strategy p = if is_none (truthy p.doi) then "normalized_title" else "doi"

abbrev pub new_work : String → Paper → CanonicalWork
new_work id p = record {
  work_id = id;
  canonical_paper_id = p.paper_id;
  doi = p.doi;
  version_paper_ids = p.paper_id ∷ [];
}

abbrev pub with_version : Paper → CanonicalWork → CanonicalWork
with_version p w = record w { version_paper_ids = append_unique p.paper_id w.version_paper_ids }

abbrev pub versions_of : Option CanonicalWork → List String
versions_of none = []
versions_of (some w) = w.version_paper_ids

unfoldable pub register_decision :
    ResolutionDecision → List ResolutionDecision → List ResolutionDecision
register_decision d ds = if exists (of_decision d.decision_id) ds then ds else ds ++ d ∷ []

-- `workspace.papers[paper.paper_id] = paper`
abbrev pub put_paper : Paper → List Paper → List Paper
put_paper p ps =
    if exists (of_paper p.paper_id) ps
    then update (of_paper p.paper_id) (λ q. p) ps
    else ps ++ p ∷ []

abbrev pub activate : Paper → LiteratureContext → LiteratureContext
activate p c = record c {
  active_papers =
      if not (contains p.paper_id c.active_papers) && not (contains p.paper_id c.excluded_papers)
      then c.active_papers ++ p.paper_id ∷ []
      else c.active_papers;
}

abbrev pub text_items : List String → Items
text_items [] = nil
text_items (s ∷ ss) = cons (str s) (text_items ss)

module _ (digest strip_lower words : String → String) (dump : Paper → String) where
  abbrev work_id_of : Option String → Paper → String
  work_id_of (some doi) p = join ("doi:" ∷ strip_lower doi ∷ [])
  work_id_of none p = join ("title:" ∷ first_chars 16 (digest (words p.title)) ∷ [])

  unfoldable pub canonical_work_id : Paper → String
  canonical_work_id p = work_id_of (truthy p.doi) p

  -- The works after the registration: a new one, or the one that is there with this version.
  unfoldable pub register_work : Paper → List CanonicalWork → List CanonicalWork
  unfolding canonical_work_id
  register_work p ws =
      let id = canonical_work_id p in
      if exists (of_work id) ws
      then update (of_work id) (with_version p) ws
      else ws ++ new_work id p ∷ []

  abbrev pub source_of : Paper → SourceRecord
  source_of p = record {
    source_record_id = join ("metadata:" ∷ p.paper_id ∷ []);
    paper_id = p.paper_id;
    source_name = or_text (truthy p.publisher) (or_text (truthy p.journal) "metadata");
    source_url = first p.source_urls;
    content_hash = digest (dump p);
  }

  -- `source_records.setdefault`
  unfoldable pub register_source : Paper → List SourceRecord → List SourceRecord
  register_source p rs =
      let r = source_of p in if exists (of_source r.source_record_id) rs then rs else rs ++ r ∷ []

  abbrev pub decision_of : Paper → (is_new : Bool) → List String → ResolutionDecision
  decision_of p is_new versions = record {
    decision_id = join (
        "resolve:"
        ∷ first_chars 16 (digest (join (canonical_work_id p ∷ ":" ∷ p.paper_id ∷ [])))
        ∷ []);
    canonical_work_id = canonical_work_id p;
    candidate_paper_ids = versions;
    strategy = strategy p;
    confidence = if is_none (truthy p.doi) then 82 else 100;
    reason = join (
        (if is_new
          then "Created canonical work using "
          else "Merged paper into existing canonical work using ")
        ∷ strategy p
        ∷ "."
        ∷ []);
  }

  unfoldable pub register_paper_identity : Workspace → Paper → Workspace
  unfolding register_work register_source register_decision
  register_paper_identity ws p =
      let works = register_work p ws.canonical_works in
      let is_new = not (exists (of_work (canonical_work_id p)) ws.canonical_works) in
      record ws {
        canonical_works = works;
        source_records = register_source p ws.source_records;
        resolution_decisions =
            register_decision
              (decision_of p is_new (versions_of (find (of_work (canonical_work_id p)) works)))
              ws.resolution_decisions;
      }

  abbrev pub put_and_register : Workspace → Paper → Workspace
  put_and_register ws p = register_paper_identity (record ws { papers = put_paper p ws.papers }) p

  unfoldable pub add_papers : List Paper → Workspace → Workspace
  unfolding register_paper_identity contains
  add_papers [] ws = ws
  add_papers (p ∷ ps) ws =
      let ws' = put_and_register ws p in
      add_papers ps (record ws' { context = activate p ws'.context })

  unfoldable pub put_all : List Paper → Workspace → Workspace
  unfolding register_paper_identity
  put_all [] ws = ws
  put_all (p ∷ ps) ws = put_all ps (put_and_register ws p)

  -- `chosen` is what `select_context_papers` answers for the papers, the request and the limit.
  unfoldable pub add_ranked_candidate_papers :
      (known : List String) (validate : Fields → Fields)
      → List Paper
      → (chosen : List Paper) → ℕ
      → Workspace
      → Workspace
  unfolding put_all contains
  add_ranked_candidate_papers known validate papers chosen active_limit ws =
      let ws' = put_all papers ws in
      let ids = map (λ p. p.paper_id) papers in
      record ws' {
        context = record ws'.context {
          active_papers =
              select (λ id. not (contains id ws'.context.excluded_papers))
                (map (λ p. p.paper_id) chosen);
          filters = merge_filters known validate ws'.context.filters (
              field "candidate_pool_ids" (list (text_items ids)) (
                field "candidate_pool_count" (num (length ids)) (
                  field "active_context_limit" (num active_limit)
                    (field "ranking_policy" (str "wide_recall_rank_then_top_context") end))));
        };
      }
