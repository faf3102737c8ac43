-- ===== src/RateLimit.antt =====
-- rate_limit.py: the limiter of LLM requests, a semaphore and a sliding window of time stamps.
-- Times are microseconds of the monotonic clock; a call is given the clock readings that it makes.
pub mod Eviction
pub mod Window
pub mod Samples
use lit_trace.Base.{
  ℕ, zero, suc, ◌+◌, ◌-◌, ◌*◌, Bool, true, false, Option, none, some, List, [], ◌∷◌, ◌++◌, ltb, leb,
  max, if◌then◌else◌, length,
}
use lit_trace.StateDb.{second}

-- 0 stands for no limit.
pub record RateLimitConfig : Type 0 where
  pub max_concurrent : ℕ
  pub max_requests_per_minute : ℕ

pub record RateLimiter : Type 0 where
  pub max_concurrent : ℕ
  pub max_rpm : ℕ
  -- The free slots of the semaphore, where there is one.
  pub semaphore : Option ℕ
  pub timestamps : List ℕ
  pub total_acquired : ℕ
  pub total_waited : ℕ

abbrev pub semaphore_of : ℕ → Option ℕ
semaphore_of n = if ltb 0 n then some n else none

unfoldable pub new_limiter : RateLimitConfig → RateLimiter
new_limiter cfg = record {
  max_concurrent = cfg.max_concurrent;
  max_rpm = cfg.max_requests_per_minute;
  semaphore = semaphore_of cfg.max_concurrent;
  timestamps = [];
  total_acquired = 0;
  total_waited = 0;
}

-- The stamps stay, and so do the counts.
unfoldable pub configure : RateLimitConfig → RateLimiter → RateLimiter
configure cfg l = record l {
  max_concurrent = cfg.max_concurrent;
  max_rpm = cfg.max_requests_per_minute;
  semaphore = semaphore_of cfg.max_concurrent;
}

abbrev pub minute : ℕ
minute = 60 * second

-- `while timestamps and timestamps[0] < now - 60.0: popleft()`
unfoldable pub evict : ℕ → List ℕ → List ℕ
evict now [] = []
evict now (t ∷ ts) = let rest = evict now ts in if ltb (t + minute) now then rest else t ∷ ts

-- `max(wait_until - now, 0.01)`, and nothing for an empty window.
abbrev pub wait_seconds : ℕ → List ℕ → ℕ
wait_seconds now [] = 0
wait_seconds now (t ∷ ts) = max (t + minute - now) 10000

-- The readings of the clock: on entry, after a sleep, and at the append.
pub record Clock : Type 0 where
  pub entered : ℕ
  pub woken : ℕ
  pub stamped : ℕ

-- The window at the append: evicted, and again after a sleep where it was full.
unfoldable pub admitted : ℕ → Clock → List ℕ → List ℕ
unfolding evict
admitted max_rpm clock ts =
    let current = evict clock.entered ts in
    if leb max_rpm (length current) then evict clock.woken current else current

abbrev pub waits : ℕ → Clock → List ℕ → ℕ
waits max_rpm clock ts = if leb max_rpm (length (evict clock.entered ts)) then 1 else 0

abbrev pub take_slot : Option ℕ → Option ℕ
take_slot none = none
take_slot (some n) = some (n - 1)

-- Whether `acquire` would block on the semaphore.
abbrev pub has_slot : Option ℕ → Bool
has_slot none = true
has_slot (some n) = ltb 0 n

-- `acquire`; none while it blocks on the semaphore.
unfoldable pub acquire : Clock → RateLimiter → Option RateLimiter
unfolding admitted
acquire clock l =
    if has_slot l.semaphore
    then some (record l {
      semaphore = take_slot l.semaphore;
      timestamps =
          if ltb 0 l.max_rpm
          then admitted l.max_rpm clock l.timestamps ++ clock.stamped ∷ []
          else l.timestamps;
      total_acquired = l.total_acquired + 1;
      total_waited =
          if ltb 0 l.max_rpm
          then l.total_waited + waits l.max_rpm clock l.timestamps
          else l.total_waited;
    })
    else none

abbrev pub give_slot : Option ℕ → Option ℕ
give_slot none = none
give_slot (some n) = some (n + 1)

unfoldable pub release : RateLimiter → RateLimiter
release l = record l { semaphore = give_slot l.semaphore }

pub record Snapshot : Type 0 where
  pub max_concurrent : ℕ
  pub max_rpm : ℕ
  pub current_window : ℕ
  pub total_acquired : ℕ
  pub total_waited : ℕ

unfoldable pub snapshot : RateLimiter → Snapshot
snapshot l = record {
  max_concurrent = l.max_concurrent;
  max_rpm = l.max_rpm;
  current_window = length l.timestamps;
  total_acquired = l.total_acquired;
  total_waited = l.total_waited;
}
