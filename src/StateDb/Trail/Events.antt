-- ===== src/StateDb/Trail/Events.antt =====
-- The append of an event: what a reader of the trail finds then, of all events and of those of a paper.
use lit_trace.Base.{ℕ, String, ◌≡◌, sym, ap, ◌∙◌, none, some, List, [], ◌∷◌, ◌++◌, update, select}
use lit_trace.Json.{Fields, jsonb}
use lit_trace.StateDb.{TrailRow, Db, ok, trail_of}
use lit_trace.StateDb.Trail.{
  roll_over, append_rolled, update_trail, set_events, ensure_trail, ensure_chat_trail,
  append_chat_event, list_chat_messages, list_chat_events, touch, messages_of, events_of, is_about,
}
use lit_trace.StateDb.Trail.Cap.{
  IsCapped, IsRolled, find-update_ensured, messages-before, events-before, update_trail_total,
  length-append_rolled, ensure_trail-IsCapped, roll_over-IsRolled, IsCapped-or_row,
}

-- `event` was appended to the events of the session, and nothing else of its trail changed.
pub record IsNoted (id : String) (event : Fields) (db db' : Db) : Type 0 where
  pub capped : IsCapped db'.trails
  pub kept : List Fields
  pub rolled : IsRolled (list_chat_events id none db) kept
  pub events : list_chat_events id none db' ≡ kept ++ jsonb event ∷ []
  pub messages : list_chat_messages id db' ≡ list_chat_messages id db
  pub about :
      (paper_id : String)
      → list_chat_events id (some paper_id) db'
        ≡ select (is_about paper_id) (kept ++ jsonb event ∷ [])

module _ (id : String) (event : Fields) (now : ℕ) (db : Db) (h : IsCapped db.trails) where
  abbrev set_last : TrailRow → TrailRow
  set_last = set_events (append_rolled event) now

  abbrev noted : Db
  noted = touch id now (record (ensure_chat_trail id now db) {
    trails = update (trail_of id) set_last (ensure_trail id now db.trails);
  })

  total :
      (update_trail id set_last (ensure_chat_trail id now db)
        ≡ ok (record (ensure_chat_trail id now db) {
          trails = update (trail_of id) set_last (ensure_trail id now db.trails);
        }))
      × IsCapped (update (trail_of id) set_last (ensure_trail id now db.trails))
  unfolding ensure_chat_trail
  total =
      update_trail_total id now set_last (ensure_chat_trail id now db)
        (λ t k. (k.0, length-append_rolled event t.events k.1))
        (ensure_trail-IsCapped id now db.trails h)

  events-noted :
      list_chat_events id none noted ≡ roll_over (list_chat_events id none db) ++ jsonb event ∷ []
  unfolding list_chat_events append_rolled
  events-noted =
      ap (events_of none) (find-update_ensured id now db set_last (λ t e. e))
      ∙ ap (λ xs. roll_over xs ++ jsonb event ∷ []) (sym (events-before id now db))

  about-noted :
      (paper_id : String)
      → list_chat_events id (some paper_id) noted
        ≡ select (is_about paper_id) (roll_over (list_chat_events id none db) ++ jsonb event ∷ [])
  unfolding list_chat_events append_rolled
  about-noted paper_id =
      ap (events_of (some paper_id)) (find-update_ensured id now db set_last (λ t e. e))
      ∙ ap (λ xs. select (is_about paper_id) (roll_over xs ++ jsonb event ∷ []))
          (sym (events-before id now db))

  messages-noted : list_chat_messages id noted ≡ list_chat_messages id db
  unfolding list_chat_messages
  messages-noted =
      ap messages_of (find-update_ensured id now db set_last (λ t e. e))
      ∙ sym (messages-before id now db)

  -- Where the trails are within the cap, `append_chat_event` never raises: the events are then those of before, of
  -- which at most the oldest fifth may have gone, and none below 4900, followed by the new one; those of a paper are
  -- the ones among them; the messages stay, and every trail is within the cap again.
  append_chat_event-IsNoted :
      (db' : Db) × (append_chat_event id event now db ≡ ok db') × IsNoted id event db db'
  unfolding append_chat_event
  append_chat_event-IsNoted = (
    noted,
    rw (total.0),
    record {
      capped = total.1;
      kept = roll_over (list_chat_events id none db);
      rolled =
          roll_over-IsRolled _
            (rw (events-before id now db) (IsCapped-or_row id now db.trails h).1);
      events = events-noted;
      messages = messages-noted;
      about = about-noted;
    },
  )
