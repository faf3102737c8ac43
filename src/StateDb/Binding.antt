-- ===== src/StateDb/Binding.antt =====
-- state_db.py: the thread binding of a session, and the use that the chat turn and the compaction
-- worker make of it (codex_runtime/service.py).
pub mod Turns
use lit_trace.Base.{
  ℕ, ◌+◌, ◌-◌, String, Bool, true, false, not, Option, none, some, List, [], ◌∷◌, ◌++◌, ◌&&◌, ◌||◌,
  ◌==◌, ltb, leb, if◌then◌else◌, take, ◌*◌,
}
use lit_trace.Base.Table.{find, exists, update, select}
use lit_trace.Base.Sort.{sort_by}
use lit_trace.StateDb.{
  BindingRow, SessionRow, SessionStatus, idle, active, Db, Result, ok, err, unique_violation,
  foreign_key_violation, of_session, binding_of, second,
}

-- `_row_to_agent_thread_binding`: the query selects nine columns, so the three of the compaction
-- worker come back at the defaults of the record.
unfoldable pub row_to_agent_thread_binding : BindingRow → BindingRow
row_to_agent_thread_binding r = record r {
  turn_count = 0;
  last_total_tokens = 0;
  last_compacted_at = none;
}

abbrev pub read_binding : Option BindingRow → Option BindingRow
read_binding none = none
read_binding (some r) = some (row_to_agent_thread_binding r)

unfoldable pub get_agent_thread_binding : String → Db → Option BindingRow
unfolding row_to_agent_thread_binding
get_agent_thread_binding id db = read_binding (find (binding_of id) db.bindings)

unfoldable pub get_agent_thread_binding_by_thread_id : String → Db → Option BindingRow
unfolding row_to_agent_thread_binding
get_agent_thread_binding_by_thread_id thread db =
    read_binding (find (λ b. b.codex_thread_id == thread) db.bindings)

-- `DO UPDATE SET …`; `created_at` stays.
abbrev pub rebind : BindingRow → ℕ → BindingRow → BindingRow
rebind b now r = record b { created_at = r.created_at; updated_at = now }

-- The session must exist, and no other session may hold the thread (`UNIQUE`).
unfoldable pub upsert_agent_thread_binding : BindingRow → ℕ → Db → Result Db
upsert_agent_thread_binding b now db =
    let here = binding_of b.session_id in
    if not (exists (of_session b.session_id) db.sessions)
    then err foreign_key_violation
    else if exists
        (λ r. (r.codex_thread_id == b.codex_thread_id) && not (r.session_id == b.session_id))
        db.bindings
    then err unique_violation
    else ok (record db {
      bindings =
          if exists here db.bindings
          then update here (rebind b now) db.bindings
          else db.bindings ++ record b { updated_at = now } ∷ [];
    })

-- codex_runtime/service.py: the book-keeping at the end of a turn.
unfoldable pub record_turn : BindingRow → (revision total_tokens now : ℕ) → Db → Result Db
record_turn binding revision total_tokens now db =
    upsert_agent_thread_binding
      (record binding {
        workspace_revision = revision;
        status = "active";
        last_error = none;
        turn_count = binding.turn_count + 1;
        last_total_tokens = total_tokens;
      })
      now db

-- A turn reads the binding of its session, and writes it back when it ends.
unfoldable pub turn_on : Option BindingRow → (revision total_tokens now : ℕ) → Db → Result Db
turn_on none revision total_tokens now db = ok db
turn_on (some b) revision total_tokens now db = record_turn b revision total_tokens now db

unfoldable pub run_turn : String → (revision total_tokens now : ℕ) → Db → Result Db
run_turn id revision total_tokens now db =
    turn_on (get_agent_thread_binding id db) revision total_tokens now db

-- `s2.status IN ('idle', 'active')`
abbrev pub is_open : SessionStatus → Bool
is_open idle = true
is_open active = true
is_open _ = false

abbrev pub session_is_open : Option SessionRow → Bool
session_is_open none = false
session_is_open (some r) = is_open r.status

-- `last_compacted_at IS NULL OR last_compacted_at < now() - interval '1 hour'`
abbrev pub rested : ℕ → Option ℕ → Bool
rested now none = true
rested now (some t) = ltb (t + 3600 * second) now

abbrev pub is_due : (turns tokens now : ℕ) → Db → BindingRow → Bool
is_due turns tokens now db b =
    session_is_open (find (of_session b.session_id) db.sessions)
    && ((leb turns b.turn_count || leb tokens b.last_total_tokens)
        && rested now b.last_compacted_at)

-- `ORDER BY turn_count DESC LIMIT %s`
unfoldable pub compaction_due_sessions : (turns tokens limit now : ℕ) → Db → List BindingRow
compaction_due_sessions turns tokens limit now db = take limit (
    sort_by (λ a b. leb b.turn_count a.turn_count)
      (select (is_due turns tokens now db) db.bindings))
