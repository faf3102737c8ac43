-- ===== src/Retry/Tracker.antt =====
-- The tracker of retry traces: its limit, what it keeps of a record, and its file.
use lit_trace.Base.{
  ℕ, zero, suc, ◌-◌, ◌≤◌, ◌≡◌, inl, inr, refl, ap, true, some, List, [], ◌∷◌, ◌++◌, ◌&&◌, arith,
  ltb, length, drop, length-drop, length-append, Bool-cases,
}
use lit_trace.Retry.{RetryTrace}
use lit_trace.Retry.Traces.{
  RetryTracker, newest, save_to_disk, load_from_disk, append_trace, record_sync,
}

-- The limit of the tracker holds.
abbrev pub IsLimited : RetryTracker → Type 0
IsLimited t = 1 ≤ t.max_entries → length t.traces ≤ t.max_entries

newest-length : (n : ℕ) (ts : List RetryTrace) → 1 ≤ n → length (newest n ts) ≤ n
unfolding newest
newest-length n ts h = ground (arith, length-drop (length ts - n) ts)

newest-short : (n : ℕ) (ts : List RetryTrace) → length ts ≤ n → newest n ts ≡ ts
unfolding newest
newest-short n ts h = ground arith

unlimited : (ts : List RetryTrace) → newest 0 ts ≡ ts
unfolding newest
unlimited ts = refl

newest_again : (n : ℕ) (ts : List RetryTrace) → newest n (newest n ts) ≡ newest n ts
newest_again zero ts = unlimited (newest 0 ts)
newest_again (suc n) ts =
    newest-short (suc n) (newest (suc n) ts) (newest-length (suc n) ts (omega arith))

-- A suffix of a list that ends with an element ends with it.
drop-last {ℓ} :
    {A : Type ℓ} (k : ℕ) (xs : List A) (x : A)
    → k ≤ length xs
    → (ys : List A) × (drop k (xs ++ x ∷ []) ≡ ys ++ x ∷ [])
drop-last zero xs x h = (xs, refl)
drop-last (suc k) [] x h = absurd (omega arith)
drop-last (suc k) (y ∷ xs) x h = drop-last k xs x (omega arith)

newest-last :
    (n : ℕ) (ts : List RetryTrace) (trace : RetryTrace)
    → (older : List RetryTrace) × (newest n (ts ++ trace ∷ []) ≡ older ++ trace ∷ [])
unfolding newest
newest-last n ts trace =
    let all = ts ++ trace ∷ [] in
    elim (Bool-cases (ltb 0 n && ltb n (length all))) [
      | inr few ↦ rw few (ts, refl)
      | inl many ↦
          let fits : length all - n ≤ length ts =
            ground (arith, many, length-append ts (trace ∷ [])) in
          rw many (drop-last (length all - n) ts trace fits)
    ]

-- After a record the limit holds whatever was held before, the recorded trace is the newest, and the file,
-- where there is one, holds the traces that the tracker holds.
record_sync-IsKept :
    (trace : RetryTrace) (t : RetryTracker)
    → let t' = record_sync trace t in
      IsLimited t'
      × ((older : List RetryTrace) × (t'.traces ≡ older ++ trace ∷ []))
      × (t.persists ≡ true → t'.disk ≡ some t'.traces)
unfolding record_sync append_trace save_to_disk
record_sync-IsKept trace t =
    let limited = newest-length t.max_entries (t.traces ++ trace ∷ []) in
    let last = newest-last t.max_entries t.traces trace in
    elim (Bool-cases t.persists) [
      | inr memory ↦ rw memory (limited, last, λ h. cc)
      | inl file ↦
          rw file
            (limited, last, λ h. ap some (newest_again t.max_entries (t.traces ++ trace ∷ [])))
    ]

-- The tracker that a process starts with: no traces, and the file that the one before left.
abbrev pub restarted : RetryTracker → RetryTracker
restarted t = record t { traces = [] }

-- A restart loses nothing: after a record to a file, a tracker that starts with that file and loads it holds
-- the traces that the tracker before it held, in their order.
record_sync-load_from_disk :
    (trace : RetryTrace) (t : RetryTracker)
    → t.persists ≡ true
    → (load_from_disk (restarted (record_sync trace t))).traces ≡ (record_sync trace t).traces
unfolding load_from_disk
record_sync-load_from_disk trace t h = rw ((record_sync-IsKept trace t).2 h, load_from_disk) refl
