-- ===== src/Gateway.antt =====
-- codex_runtime/gateway.py: the tools of the agent that change a workspace, from their arguments to the
-- transaction of the state store. Pydantic, `str.strip`, the
-- decimals of a number and SHA-256 are parameters.
pub mod Tools
pub mod Enqueue
pub mod Selected
pub mod Commit
pub mod Again
pub mod Queued
pub mod Samples
use Prim.Native.String
use lit_trace.Base.{
  ℕ, ◌+◌, String, Bool, true, false, not, Option, none, some, List, [], ◌∷◌, ◌++◌, ◌&&◌, ◌||◌, ◌==◌,
  if◌then◌else◌, leb, ltb, length, join, is_none,
}
use lit_trace.Base.Words.{codes}
use lit_trace.Base.Unique.{is_in, first_occurrences}
use lit_trace.Base.Table.{find, exists, select}
use lit_trace.Json.{Json, num, str, bool, list, dict, Items, nil, cons, Fields, end, field, set}
use lit_trace.Context.{Paper, LiteratureContext}
use lit_trace.Context.Papers.{Workspace}
use lit_trace.StateDb.{
  SessionRow, BindingRow, AsyncTask, queued, ToolCall, Db, Result, ok, err, value_error, type_error,
  lookup_error, permission_error, ◌>>=◌, ◌>>◌, raise_if,
}
use lit_trace.StateDb.Session.{get_session_state}
use lit_trace.StateDb.Binding.{get_agent_thread_binding_by_thread_id}
use lit_trace.StateDb.Tool.{ToolRequest, commit_agent_workspace_tool}

-- A number among the arguments: a natural number, a Boolean, or any other value, which the tools refuse.
pub data RawInt : Type 0 where
  integer : ℕ → RawInt
  boolean : RawInt
  other : RawInt

unfoldable pub strict_non_negative_int : RawInt → Result ℕ
strict_non_negative_int (integer n) = ok n
strict_non_negative_int boolean = err type_error
strict_non_negative_int other = err value_error

unfoldable pub strict_bounded_int : RawInt → (minimum maximum : ℕ) → Result ℕ
unfolding strict_non_negative_int
strict_bounded_int v minimum maximum = do
  n ← strict_non_negative_int v
  raise_if (ltb n minimum || ltb maximum n) value_error
  ok n

-- A list of identifiers among the arguments, with the `str()` of its items.
pub data RawIds : Type 0 where
  missing null not_a_list : RawIds
  ids : List String → RawIds

-- What the source takes from libraries.
pub record Library : Type 0 where
  pub strip : String → String
  pub validate : Fields → Workspace
  pub model_dump : Workspace → Fields
  pub paper_dump : Paper → Fields
  pub sha256 : String → String
  pub decimal : ℕ → String
  pub command_sha256 : Fields → String
  pub workspace_sha256 : Fields → String

abbrev pub is_active_binding : Option BindingRow → Option BindingRow
is_active_binding none = none
is_active_binding (some b) = if b.status == "active" then some b else none

-- `with workspace_revision = n`
abbrev pub set_revision : ℕ → Workspace → Workspace
set_revision n ws = record ws {
  context = record ws.context { filters = set "workspace_revision" (num n) ws.context.filters };
}

abbrev pub set_selected : List String → Workspace → Workspace
set_selected selected ws = record ws {
  context = record ws.context { selected_for_download = selected };
}

abbrev pub str_items : List String → Items
str_items [] = nil
str_items (s ∷ ss) = cons (str s) (str_items ss)

-- `8 <= len(key) <= 200`
abbrev pub is_key : String → Bool
is_key k = leb 8 (length (codes k)) && leb (length (codes k)) 200

pub data Mode : Type 0 where
  add remove replace clear : Mode

abbrev pub mode_of : String → Option Mode
mode_of s =
    if s == "add"
    then some add
    else if s == "remove"
    then some remove
    else if s == "replace"
    then some replace
    else if s == "clear"
    then some clear
    else none

abbrev pub mode_text : Mode → String
mode_text add = "add"
mode_text remove = "remove"
mode_text replace = "replace"
mode_text clear = "clear"

abbrev pub is_clear : Mode → Bool
is_clear clear = true
is_clear _ = false

-- The selection after a command; `previous` is the active part of the one before.
unfoldable pub new_selection : Mode → (previous paper_ids : List String) → List String
new_selection clear previous paper_ids = []
new_selection replace previous paper_ids = paper_ids
new_selection add previous paper_ids = previous ++ select (λ p. not (is_in p previous)) paper_ids
new_selection remove previous paper_ids = select (λ p. not (is_in p paper_ids)) previous

pub record SelectionArguments : Type 0 where
  pub mode : String
  pub expected_revision : RawInt
  pub idempotency_key : String
  pub paper_ids : RawIds

abbrev pub require {ℓ} : {A : Type ℓ} → Option A → Result A
require none = err value_error
require (some a) = ok a

-- What a tool gives to `_commit_workspace_tool`.
pub record Command : Type 0 where
  pub updated : Workspace
  pub tool_name : String
  pub idempotency_key : String
  pub expected_revision : ℕ
  pub command : Fields
  pub result : Fields
  pub async_task : Option AsyncTask
