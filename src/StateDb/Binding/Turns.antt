-- ===== src/StateDb/Binding/Turns.antt =====
-- The book-keeping of turns does not accumulate: a binding is read back without its counters.
use lit_trace.Base.{
  ℕ, String, ◌≡◌, refl, none, some, arith, find, update, ap, ◌∙◌, eq_refl, ==→≡, sym,
}
use lit_trace.Base.Table.{find-update_self, exists-find, find-holds}
use lit_trace.StateDb.{BindingRow, Db, ok, binding_of}
use lit_trace.StateDb.Binding.{
  get_agent_thread_binding, upsert_agent_thread_binding, rebind, record_turn, turn_on, run_turn,
}

-- Where the upsert of a binding succeeds on a session that has one, the row is overwritten.
upsert_existing :
    (b r : BindingRow) (now : ℕ) (db db' : Db)
    → find (binding_of b.session_id) db.bindings ≡ some r
    → upsert_agent_thread_binding b now db ≡ ok db'
    → find (binding_of b.session_id) db'.bindings ≡ some (rebind b now r)
unfolding upsert_agent_thread_binding
upsert_existing b r now db db' h e =
    let here = exists-find (binding_of b.session_id) db.bindings r h in
    let hit : find (binding_of b.session_id)
          (update (binding_of b.session_id) (rebind b now) db.bindings)
        ≡ some (rebind b now r) =
      rw (
        find-update_self (binding_of b.session_id) (rebind b now) db.bindings
            (λ x k. eq_refl b.session_id),
        h,
      ) in
    ground (arith, here, hit)

-- The binding that a turn writes back.
abbrev turned : BindingRow → (revision total_tokens : ℕ) → BindingRow
turned b revision total_tokens = record b {
  workspace_revision = revision;
  status = "active";
  last_error = none;
  turn_count = 1;
  last_total_tokens = total_tokens;
  last_compacted_at = none;
}

run_turn-eq :
    (id : String) (revision total_tokens now : ℕ) (db : Db) (b : BindingRow)
    → find (binding_of id) db.bindings ≡ some b
    → run_turn id revision total_tokens now db
      ≡ upsert_agent_thread_binding (turned b revision total_tokens) now db
unfolding run_turn turn_on get_agent_thread_binding record_turn
run_turn-eq id revision total_tokens now db b h = rw h refl

binding_id :
    (id : String) (db : Db) (b : BindingRow)
    → find (binding_of id) db.bindings ≡ some b
    → b.session_id ≡ id
binding_id id db b h = ==→≡ b.session_id id (find-holds (binding_of id) db.bindings b h)

-- However many turns a thread has had, and whenever it was compacted: after a turn that is recorded, its
-- binding says one turn, the tokens of that turn, and never compacted.
pub run_turn_forgets :
    (id : String) (revision total_tokens now : ℕ) (db db' : Db) (b : BindingRow)
    → find (binding_of id) db.bindings ≡ some b
    → run_turn id revision total_tokens now db ≡ ok db'
    → (b' : BindingRow) × (find (binding_of id) db'.bindings ≡ some b')
      × (b'.turn_count ≡ 1)
      × (b'.last_total_tokens ≡ total_tokens)
      × (b'.last_compacted_at ≡ none)
run_turn_forgets id revision total_tokens now db db' b h e =
    let same = binding_id id db b h in
    let at = ap (λ i. find (binding_of i) db.bindings) same ∙ h in
    let hit =
      upsert_existing (turned b revision total_tokens) b now db db' at
        (sym (run_turn-eq id revision total_tokens now db b h) ∙ e) in
    (
      rebind (turned b revision total_tokens) now b,
      ap (λ i. find (binding_of i) db'.bindings) (sym same) ∙ hit,
      refl,
      refl,
      refl,
    )
