-- ===== src/Jobs/Download/Command.antt =====
-- The command of a download job, from the tool that queues it to the worker that runs it.
use lit_trace.Base.{String, ◌≡◌, some, List, [], ◌∷◌, ◌==◌, find}
use lit_trace.Json.{Json, dict}
use lit_trace.Context.{Paper}
use lit_trace.Context.Papers.{Workspace}
use lit_trace.StateDb.{AsyncTask, ok}
use lit_trace.Gateway.{Library, str_items}
use lit_trace.Jobs.Download.{Decoder, distinct_ids, workspace_of, execution_input}

-- A paper is validated from its dump.
abbrev pub ValidatesDumps : Library → Decoder → Type 0
ValidatesDumps lib d = (p : Paper) → d.validate_paper (dict (lib.paper_dump p)) ≡ ok p

-- The papers of a workspace under some identifiers, in their order.
abbrev pub AreFound : Workspace → List String → List Paper → Type 0
AreFound ws [] [] = Unit
AreFound ws [] (p ∷ ps) = ⊥
AreFound ws (id ∷ ids) [] = ⊥
AreFound ws (id ∷ ids) (p ∷ ps) =
    (find (λ (q : Paper). q.paper_id == id) ws.papers ≡ some p) × AreFound ws ids ps

module _ (lib : Library) (d : Decoder) (law : ValidatesDumps lib d) (ws : Workspace) where
  -- What the worker reads from a command for some papers of the workspace.
  abbrev pub IsRead : (session_id target : String) → (paper_ids : List String) → AsyncTask → Type 0
  IsRead session_id target paper_ids job =
      let ids = distinct_ids d (str_items paper_ids) in
      (ps : List Paper) × AreFound ws ids ps
      × (execution_input d job
          ≡ ok (
            workspace_of d ids ps,
            record { paper_ids = ids; session_id = session_id; target = target },
          ))
