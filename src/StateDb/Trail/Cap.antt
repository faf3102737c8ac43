-- ===== src/StateDb/Trail/Cap.antt =====
-- The cap on the lists of a trail: no append of a message or an event breaks the constraint.
use lit_trace.Base.{
  max, ℕ, ◌-◌, ◌/◌, ◌≤◌, ◌<◌, String, ◌≡◌, refl, sym, ap, ◌∙◌, Bool, true, false, none, some, List,
  [], ◌∷◌, ◌++◌, arith, length, drop, length-append, length-drop, find, exists, update, eq_refl,
  leb, if◌then◌else◌, ◌*◌,
}
use lit_trace.Base.Table.{find-update_self, find-ensure, or_row}
use lit_trace.Json.{Fields, jsonb}
use lit_trace.StateDb.{TrailRow, Db, ok, trail_of}
use lit_trace.StateDb.Trail.{
  cap, keep_last, roll_over, append_rolled, append_recent, over_cap, update_trail, set_messages,
  empty_trail, ensure_trail, ensure_chat_trail, append_chat_message, list_chat_messages,
  list_chat_events, touch, messages_of, events_of,
}

-- Both lists of every trail hold at most 5000 elements.
abbrev pub IsCapped : List TrailRow → Type 0
IsCapped [] = Unit
IsCapped (t ∷ ts) = ((length t.messages ≤ cap) × (length t.events ≤ cap)) × IsCapped ts

-- What the roll-over removes: the oldest, at most a fifth, and nothing below the threshold.
pub record IsRolled (xs ys : List Fields) : Type 0 where
  pub count : ℕ
  pub rest : ys ≡ drop count xs
  pub at_most : 5 * count ≤ length xs
  pub below : length xs < 4900 → count ≡ 0

removed : List Fields → ℕ
removed xs = if leb 4900 (length xs) then length xs - (5000 - max 1 (length xs / 5)) else 0

pub roll_over-IsRolled : (xs : List Fields) → length xs ≤ cap → IsRolled xs (roll_over xs)
unfolding roll_over removed
roll_over-IsRolled xs h = record {
  count = removed xs;
  rest = ground arith;
  at_most = ground arith;
  below = λ k. ground arith;
}

pub length-append_rolled :
    (m : Fields) (xs : List Fields) → length xs ≤ cap → length (append_rolled m xs) ≤ cap
unfolding append_rolled roll_over
length-append_rolled m xs h = ground (
  arith,
  length-append (roll_over xs) (jsonb m ∷ []),
  length-drop (length xs - (5000 - max 1 (length xs / 5))) xs,
)

pub length-append_recent : (m : Fields) (xs : List Fields) → length (append_recent m xs) ≤ cap
unfolding append_recent
length-append_recent m xs =
    omega
      (arith, length-append (keep_last 4999 xs) (jsonb m ∷ []), length-drop (length xs - 4999) xs)

update-IsCapped :
    (p : TrailRow → Bool) (f : TrailRow → TrailRow) (ts : List TrailRow)
    → ((t : TrailRow)
        → (length t.messages ≤ cap) × (length t.events ≤ cap)
        → (length (f t).messages ≤ cap) × (length (f t).events ≤ cap))
    → IsCapped ts
    → IsCapped (update p f ts)
unfolding update
update-IsCapped p f [] k h = tt
update-IsCapped p f (t ∷ ts) k h = ground (arith, k t h.0, update-IsCapped p f ts k h.1)

over_cap-IsCapped : (ts : List TrailRow) → IsCapped ts → exists over_cap ts ≡ false
unfolding exists
over_cap-IsCapped [] h = refl
over_cap-IsCapped (t ∷ ts) h = ground (arith, over_cap-IsCapped ts h.1)

append-IsCapped :
    (ts : List TrailRow) (t : TrailRow)
    → IsCapped ts
    → (length t.messages ≤ cap) × (length t.events ≤ cap)
    → IsCapped (ts ++ t ∷ [])
append-IsCapped [] t h k = (k, tt)
append-IsCapped (x ∷ ts) t h k = (h.0, append-IsCapped ts t h.1 k)

pub ensure_trail-IsCapped :
    (id : String) (now : ℕ) (ts : List TrailRow) → IsCapped ts → IsCapped (ensure_trail id now ts)
unfolding ensure_trail
ensure_trail-IsCapped id now ts h = ground (arith, append-IsCapped ts (empty_trail id now) h)

-- The trails of a database after the row of the session is ensured.
module _ (id : String) (now : ℕ) where
  abbrev ensured : Db → List TrailRow
  ensured db = ensure_trail id now db.trails

  find-ensure_trail :
      (ts : List TrailRow)
      → find (trail_of id) (ensure_trail id now ts)
        ≡ some (or_row (find (trail_of id) ts) (empty_trail id now))
  unfolding ensure_trail
  find-ensure_trail ts = find-ensure (trail_of id) (empty_trail id now) ts (eq_refl id)

  pub update_trail_total :
      (f : TrailRow → TrailRow) (db : Db)
      → ((t : TrailRow)
          → (length t.messages ≤ cap) × (length t.events ≤ cap)
          → (length (f t).messages ≤ cap) × (length (f t).events ≤ cap))
      → IsCapped db.trails
      → (update_trail id f db ≡ ok (record db { trails = update (trail_of id) f db.trails }))
        × IsCapped (update (trail_of id) f db.trails)
  unfolding update_trail
  update_trail_total f db k h =
      let capped = update-IsCapped (trail_of id) f db.trails k h in
      (ground (arith, over_cap-IsCapped (update (trail_of id) f db.trails) capped), capped)

pub IsCapped-or_row :
    (id : String) (now : ℕ) (ts : List TrailRow)
    → IsCapped ts
    → let t = or_row (find (trail_of id) ts) (empty_trail id now) in
      (length t.messages ≤ cap) × (length t.events ≤ cap)
unfolding find
IsCapped-or_row id now [] h = omega arith
IsCapped-or_row id now (t ∷ ts) h = ground (arith, IsCapped-or_row id now ts h.1)

-- What a reader of the trail sees, before and after the row is ensured.
module _ (id : String) (now : ℕ) (db : Db) where
  abbrev before : TrailRow
  before = or_row (find (trail_of id) db.trails) (empty_trail id now)

  pub messages-before : list_chat_messages id db ≡ before.messages
  unfolding list_chat_messages
  messages-before = ground arith

  pub events-before : list_chat_events id none db ≡ before.events
  unfolding list_chat_events
  events-before = ground arith

  -- The update of the ensured trail, and what its reader finds then.
  module _ (f : TrailRow → TrailRow)
      (same : (t : TrailRow) → trail_of id t ≡ true → trail_of id (f t) ≡ true) where
    pub find-update_ensured :
        find (trail_of id) (update (trail_of id) f (ensure_trail id now db.trails))
        ≡ some (f before)
    find-update_ensured = rw (
      find-update_self (trail_of id) f (ensure_trail id now db.trails) same,
      find-ensure_trail id now db.trails,
    )

-- `message` was appended to the messages of the session, and nothing else of its trail changed.
pub record IsAppended (id : String) (message : Fields) (db db' : Db) : Type 0 where
  pub capped : IsCapped db'.trails
  pub kept : List Fields
  pub rolled : IsRolled (list_chat_messages id db) kept
  pub messages : list_chat_messages id db' ≡ kept ++ jsonb message ∷ []
  pub events : list_chat_events id none db' ≡ list_chat_events id none db

module _ (id : String) (message : Fields) (now : ℕ) (db : Db) (h : IsCapped db.trails) where
  abbrev set_last : TrailRow → TrailRow
  set_last = set_messages (append_rolled message) now

  abbrev appended : Db
  appended = touch id now (record (ensure_chat_trail id now db) {
    trails = update (trail_of id) set_last (ensure_trail id now db.trails);
  })

  total :
      (update_trail id set_last (ensure_chat_trail id now db)
        ≡ ok (record (ensure_chat_trail id now db) {
          trails = update (trail_of id) set_last (ensure_trail id now db.trails);
        }))
      × IsCapped (update (trail_of id) set_last (ensure_trail id now db.trails))
  unfolding ensure_chat_trail
  total =
      update_trail_total id now set_last (ensure_chat_trail id now db)
        (λ t k. (length-append_rolled message t.messages k.0, k.1))
        (ensure_trail-IsCapped id now db.trails h)

  messages-appended :
      list_chat_messages id appended ≡ roll_over (list_chat_messages id db) ++ jsonb message ∷ []
  unfolding list_chat_messages append_rolled
  messages-appended =
      ap messages_of (find-update_ensured id now db set_last (λ t e. e))
      ∙ ap (λ xs. roll_over xs ++ jsonb message ∷ []) (sym (messages-before id now db))

  events-appended : list_chat_events id none appended ≡ list_chat_events id none db
  unfolding list_chat_events
  events-appended =
      ap (events_of none) (find-update_ensured id now db set_last (λ t e. e))
      ∙ sym (events-before id now db)

  -- Where the trails are within the cap, `append_chat_message` never raises: the messages are then
  -- those of before, of which at most the oldest fifth may have gone, and none below 4900, followed
  -- by the new one; the events stay, and every trail is within the cap again.
  pub append_chat_message-IsAppended :
      (db' : Db) × (append_chat_message id message now db ≡ ok db') × IsAppended id message db db'
  unfolding append_chat_message
  append_chat_message-IsAppended = (
    appended,
    rw (total.0),
    record {
      capped = total.1;
      kept = roll_over (list_chat_messages id db);
      rolled =
          roll_over-IsRolled _
            (rw (messages-before id now db) (IsCapped-or_row id now db.trails h).0);
      messages = messages-appended;
      events = events-appended;
    },
  )
