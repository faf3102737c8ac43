-- ===== src/Retry/Traces.antt =====
-- retry.py: the tracker of retry traces, its file, and the wrappers that record in it.
use lit_trace.Base.{
  ℕ, ◌+◌, ◌-◌, String, Bool, Option, none, some, List, [], ◌∷◌, ◌++◌, ◌&&◌, ltb, if◌then◌else◌,
  length, drop, select,
}
use lit_trace.Retry.{RetryConfig, RetryTrace, retry_count, failed, Outcome, Reply, run_wrapped}

-- `RetryTracker`; `disk` and `backup` are the contents of the file at `persist_path` and of its `.1`.
pub record RetryTracker : Type 0 where
  pub traces : List RetryTrace
  pub max_entries : ℕ
  pub persists : Bool
  pub disk : Option (List RetryTrace)
  pub backup : Option (List RetryTrace)

-- `traces[-max_entries:]` where there is a limit and it is passed.
unfoldable pub newest : ℕ → List RetryTrace → List RetryTrace
newest max_entries ts =
    if ltb 0 max_entries && ltb max_entries (length ts)
    then drop (length ts - max_entries) ts
    else ts

unfoldable pub set_max_entries : ℕ → RetryTracker → RetryTracker
unfolding newest
set_max_entries n t = record t { max_entries = n; traces = newest n t.traces }

-- The current file is moved to the backup, and the newest traces are written.
unfoldable pub save_to_disk : RetryTracker → RetryTracker
unfolding newest
save_to_disk t = record t {
  disk = some (newest t.max_entries t.traces);
  backup = elim t.disk [ none ↦ t.backup | some old ↦ some old ];
}

unfoldable pub load_from_disk : RetryTracker → RetryTracker
load_from_disk t = elim t.disk [ none ↦ t | some saved ↦ record t { traces = t.traces ++ saved } ]

unfoldable pub append_trace : RetryTrace → RetryTracker → RetryTracker
unfolding newest
append_trace trace t = record t { traces = newest t.max_entries (t.traces ++ trace ∷ []) }

-- `record`, which holds the lock, and `record_sync`, which does not.
unfoldable pub record_async : RetryTrace → RetryTracker → RetryTracker
unfolding append_trace save_to_disk
record_async trace t = let t' = append_trace trace t in if t.persists then save_to_disk t' else t'

unfoldable pub record_sync : RetryTrace → RetryTracker → RetryTracker
unfolding append_trace save_to_disk
record_sync trace t = let t' = append_trace trace t in if t.persists then save_to_disk t' else t'

unfoldable pub reset : RetryTracker → RetryTracker
reset t = record t { traces = [] }

abbrev pub total_calls : RetryTracker → ℕ
total_calls t = length t.traces

abbrev pub sum_retries : List RetryTrace → ℕ
sum_retries [] = 0
sum_retries (t ∷ ts) = retry_count t + sum_retries ts

unfoldable pub total_retries : RetryTracker → ℕ
unfolding retry_count
total_retries t = sum_retries t.traces

unfoldable pub failed_calls : RetryTracker → ℕ
unfolding failed
failed_calls t = length (select failed t.traces)

module _ {X A T : Type 0} (config : RetryConfig T) (uniform : ℕ → ℕ) (is_instance : X → T → Bool)
    (text : X → String) (func : ℕ → Reply X A) (op_name : String) where
  -- A wrapped coroutine, and a wrapped function: the loop, and its trace in the tracker.
  unfoldable pub async_wrapper : RetryTracker → Outcome X A × RetryTracker
  async_wrapper t =
      let r = run_wrapped config uniform is_instance text func op_name in
      (r.outcome, record_async r.trace t)

  unfoldable pub sync_wrapper : RetryTracker → Outcome X A × RetryTracker
  sync_wrapper t =
      let r = run_wrapped config uniform is_instance text func op_name in
      (r.outcome, record_sync r.trace t)
