-- ===== src/StateDb/Trail.antt =====
-- state_db.py: the L2 methods on `chat_trail`, the messages and the events of each session.
pub mod Cap
pub mod Events
use lit_trace.Base.{
  ℕ, ◌+◌, ◌-◌, ◌/◌, String, Bool, Option, none, some, List, [], ◌∷◌, ◌++◌, ◌==◌, max, leb, ltb,
  if◌then◌else◌, length, drop,
}
use lit_trace.Base.Table.{find, exists, update, select}
use lit_trace.Json
use lit_trace.Json.{Json, str, Fields, jsonb, get}
use lit_trace.StateDb.{
  SessionRow, TrailRow, Db, draft, Result, ok, err, check_violation, of_session, trail_of, ◌>>=◌,
  ◌>>◌, raise_if,
}

-- The placeholder row that `_ensure_chat_trail` inserts.
abbrev pub placeholder : String → ℕ → SessionRow
placeholder id now = record {
  session_id = id;
  workspace_sha256 = none;
  workspace_json = Json.empty;
  manifest_json = Json.empty;
  artifact_index_json = Json.empty;
  memory_view_json = Json.empty;
  rag_profile_json = Json.empty;
  revision = 0;
  status = draft;
  created_at = now;
  updated_at = now;
}

abbrev pub empty_trail : String → ℕ → TrailRow
empty_trail id now = record { session_id = id; messages = []; events = []; updated_at = now }

-- Both inserts of `_ensure_chat_trail`, `ON CONFLICT (session_id) DO NOTHING`.
unfoldable pub ensure_session : String → ℕ → List SessionRow → List SessionRow
ensure_session id now rows =
    if exists (of_session id) rows then rows else rows ++ placeholder id now ∷ []

unfoldable pub ensure_trail : String → ℕ → List TrailRow → List TrailRow
ensure_trail id now rows =
    if exists (trail_of id) rows then rows else rows ++ empty_trail id now ∷ []

unfoldable pub ensure_chat_trail : String → ℕ → Db → Db
unfolding ensure_session ensure_trail
ensure_chat_trail id now db = record db {
  sessions = ensure_session id now db.sessions;
  trails = ensure_trail id now db.trails;
}

-- `jsonb_agg` of the `n` last elements, in their order.
abbrev pub keep_last : ℕ → List Fields → List Fields
keep_last n xs = drop (length xs - n) xs

abbrev pub cap : ℕ
cap = 5000

-- The roll-over of `append_chat_message` and `append_chat_event`: near the cap the oldest go.
unfoldable pub roll_over : List Fields → List Fields
roll_over xs =
    let current_len = length xs in
    if leb (cap - 100) current_len then keep_last (cap - max 1 (current_len / 5)) xs else xs

unfoldable pub append_rolled : Fields → List Fields → List Fields
unfolding roll_over
append_rolled record' xs = roll_over xs ++ jsonb record' ∷ []

-- The append of the two commit methods: the 4999 last events, then the new one.
unfoldable pub append_recent : Fields → List Fields → List Fields
append_recent event xs = keep_last 4999 xs ++ jsonb event ∷ []

abbrev pub set_messages : (List Fields → List Fields) → ℕ → TrailRow → TrailRow
set_messages f now t = record t { messages = f t.messages; updated_at = now }

abbrev pub set_events : (List Fields → List Fields) → ℕ → TrailRow → TrailRow
set_events f now t = record t { events = f t.events; updated_at = now }

-- The two `CHECK` constraints of the table.
abbrev pub over_cap : TrailRow → Bool
over_cap t = if ltb cap (length t.messages) then Bool.true else ltb cap (length t.events)

-- An `UPDATE` of one session's trail, which the constraints may refuse.
unfoldable pub update_trail : String → (TrailRow → TrailRow) → Db → Result Db
update_trail id f db =
    let trails = update (trail_of id) f db.trails in
    if exists over_cap trails then err check_violation else ok (record db { trails = trails })

-- `UPDATE session_state SET updated_at = now()`
abbrev pub touch : String → ℕ → Db → Db
touch id now db = record db {
  sessions = update (of_session id) (λ r. record r { updated_at = now }) db.sessions;
}

unfoldable pub append_chat_message : String → Fields → ℕ → Db → Result Db
append_chat_message id message now db = do
  db' ← update_trail id (set_messages (append_rolled message) now) (ensure_chat_trail id now db)
  ok (touch id now db')

unfoldable pub append_chat_event : String → Fields → ℕ → Db → Result Db
append_chat_event id event now db = do
  db' ← update_trail id (set_events (append_rolled event) now) (ensure_chat_trail id now db)
  ok (touch id now db')

abbrev pub messages_of : Option TrailRow → List Fields
messages_of none = []
messages_of (some t) = t.messages

unfoldable pub list_chat_messages : String → Db → List Fields
list_chat_messages id db = messages_of (find (trail_of id) db.trails)

-- `e.get("paper_id") == paper_id`
abbrev pub is_about : String → Fields → Bool
is_about paper_id e = elim (get "paper_id" e) [ some (str s) ↦ s == paper_id | _ ↦ Bool.false ]

abbrev pub events_of : Option String → Option TrailRow → List Fields
events_of paper_id none = []
events_of none (some t) = t.events
events_of (some p) (some t) = select (is_about p) t.events

unfoldable pub list_chat_events : String → Option String → Db → List Fields
list_chat_events id paper_id db = events_of paper_id (find (trail_of id) db.trails)
