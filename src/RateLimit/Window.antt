-- ===== src/RateLimit/Window.antt =====
-- How many requests the limiter grants in a minute, over any run of its calls.
use lit_trace.Base.{
  ℕ, ◌+◌, ◌≤◌, ◌<◌, ◌≡◌, refl, ap, ◌∙◌, sym, Bool, true, none, some, List, [], ◌∷◌, ◌++◌, arith,
  leb, ltb, length, length-append, Bool-cases, inl, inr, select,
}
use lit_trace.Base.All.{All, All-append}
use lit_trace.RateLimit.{
  RateLimiter, Clock, minute, evict, admitted, wait_seconds, acquire, has_slot,
}
use lit_trace.RateLimit.Eviction.{evict-split, evict-length, evict-shorter, ++_assoc, older}

-- The clock of a call goes on from the call before, and a sleep of the call lasts for longer than was asked: the
-- event loop wakes it up after its time, and the minute of the oldest stamp has then passed.
pub record IsTimely (l : RateLimiter) (clock : Clock) (last : ℕ) : Type 0 where
  pub later : last ≤ clock.entered
  pub slept :
      l.max_rpm ≤ length (evict clock.entered l.timestamps)
      → clock.entered + wait_seconds clock.entered (evict clock.entered l.timestamps) < clock.woken
  pub woke : clock.entered ≤ clock.woken
  pub appended : clock.woken ≤ clock.stamped

-- A limiter with the stamps of all the requests that it granted.
unfoldable pub serve : RateLimiter × List ℕ → Clock → RateLimiter × List ℕ
serve (l, log) clock = elim (acquire clock l) [
  | none ↦ (l, log)
  | some l' ↦ (l', log ++ clock.stamped ∷ [])
]

-- The window is within the limit, and every stamp that left it is older than a minute.
pub record IsWindowed (max_rpm : ℕ) (ts log : List ℕ) (last : ℕ) : Type 0 where
  pub limit : length ts ≤ max_rpm
  pub gone : List ℕ
  pub split : log ≡ gone ++ ts
  pub expired : All (λ t. t + minute < last) gone

module _ (l : RateLimiter) (clock : Clock) (last : ℕ) (timely : IsTimely l clock last)
    (some_rate : 1 ≤ l.max_rpm) where
  admitted-split :
      (gone : List ℕ) × (l.timestamps ≡ gone ++ admitted l.max_rpm clock l.timestamps)
      × All (λ t. t + minute < clock.stamped) gone
  unfolding admitted
  admitted-split =
      let (gone, e, k) = evict-split clock.entered l.timestamps in
      let old =
        older clock.entered clock.stamped gone (omega (arith, timely.woke, timely.appended)) k in
      elim (Bool-cases (leb l.max_rpm (length (evict clock.entered l.timestamps)))) [
        | inr room ↦ rw room (gone, e, old)
        | inl full ↦
            let (gone₂, e₂, k₂) = evict-split clock.woken (evict clock.entered l.timestamps) in
            rw full (
              gone ++ gone₂,
              e ∙ ap (λ us. gone ++ us) e₂ ∙ sym (++_assoc gone gone₂ _),
              All-append _ gone gone₂ old
                  (older clock.woken clock.stamped gone₂ timely.appended k₂),
            )
      ]

  admitted-length :
      length l.timestamps ≤ l.max_rpm → length (admitted l.max_rpm clock l.timestamps) < l.max_rpm
  unfolding admitted
  admitted-length h =
      let current = evict clock.entered l.timestamps in
      elim (Bool-cases (leb l.max_rpm (length current))) [
        | inr room ↦ rw room (ground (arith, room))
        | inl full ↦
            let at_limit : l.max_rpm ≤ length current = ground (arith, full) in
            rw full (
              omega (
                arith,
                h,
                evict-length clock.entered l.timestamps,
                evict-shorter clock.entered clock.woken current (omega (arith, at_limit, some_rate))
                    (timely.slept at_limit),
              ))
      ]

  admitted-IsWindowed :
      (log : List ℕ)
      → IsWindowed l.max_rpm l.timestamps log last
      → IsWindowed l.max_rpm
          (admitted l.max_rpm clock l.timestamps ++ clock.stamped ∷ [])
          (log ++ clock.stamped ∷ [])
          clock.stamped
  admitted-IsWindowed log w =
      let (gone, e, k) = admitted-split in
      let kept = admitted l.max_rpm clock l.timestamps in
      record {
        limit = omega (arith, length-append kept (clock.stamped ∷ []), admitted-length w.limit);
        gone = w.gone ++ gone;
        split =
            ap (λ us. us ++ clock.stamped ∷ [])
              (w.split ∙ ap (λ us. w.gone ++ us) e ∙ sym (++_assoc w.gone gone kept))
            ∙ ++_assoc (w.gone ++ gone) kept (clock.stamped ∷ []);
        expired =
            All-append _ w.gone gone
              (older last clock.stamped w.gone
                (omega (arith, timely.later, timely.woke, timely.appended)) w.expired)
              k;
      }

-- Every call is timely, where it goes on from the one before.
abbrev pub AreTimely : RateLimiter × List ℕ → List Clock → ℕ → Type 0
AreTimely s [] last = Unit
AreTimely s (c ∷ cs) last = IsTimely s.0 c last × AreTimely (serve s c) cs c.stamped

abbrev pub serve_all : RateLimiter × List ℕ → List Clock → RateLimiter × List ℕ
serve_all s [] = s
serve_all s (c ∷ cs) = serve_all (serve s c) cs

-- The time of the last call.
abbrev pub last_of : List Clock → ℕ → ℕ
last_of [] last = last
last_of (c ∷ cs) last = last_of cs c.stamped

serve-IsWindowed :
    (l : RateLimiter) (log : List ℕ) (c : Clock) (last : ℕ)
    → 1 ≤ l.max_rpm
    → IsTimely l c last
    → IsWindowed l.max_rpm l.timestamps log last
    → ((serve (l, log) c).0.max_rpm ≡ l.max_rpm)
      × IsWindowed l.max_rpm (serve (l, log) c).0.timestamps (serve (l, log) c).1 c.stamped
unfolding serve acquire
serve-IsWindowed l log c last n t w = elim (Bool-cases (has_slot l.semaphore)) [
  | inr blocked ↦
      rw (serve, acquire, blocked)
        (
          refl,
          record {
            limit = w.limit;
            gone = w.gone;
            split = w.split;
            expired =
                older last c.stamped w.gone (omega (arith, t.later, t.woke, t.appended)) w.expired;
          },
        )
  | inl free ↦
      let limited : ltb 0 l.max_rpm ≡ true = ground (arith, n) in
      rw (serve, acquire, free, limited) (refl, admitted-IsWindowed l c last t n log w)
]

serve_all-IsWindowed :
    (cs : List Clock) (l : RateLimiter) (log : List ℕ) (last : ℕ)
    → 1 ≤ l.max_rpm
    → AreTimely (l, log) cs last
    → IsWindowed l.max_rpm l.timestamps log last
    → IsWindowed l.max_rpm
        (serve_all (l, log) cs).0.timestamps
        (serve_all (l, log) cs).1
        (last_of cs last)
serve_all-IsWindowed [] l log last n t w = w
serve_all-IsWindowed (c ∷ cs) l log last n t w =
    let (same, next) = serve-IsWindowed l log c last n t.0 w in
    let rest =
      serve_all-IsWindowed cs (serve (l, log) c).0 (serve (l, log) c).1 c.stamped (rw same n) t.1
        (rw same next) in
    rw same at rest

length-select : {A : Type 0} (p : A → Bool) (ts : List A) → length (select p ts) ≤ length ts
unfolding select
length-select p [] = omega arith
length-select p (t ∷ ts) = ground (arith, length-select p ts)

-- The requests of the minute before a time.
abbrev pub in_minute : ℕ → List ℕ → ℕ
in_minute now log = length (select (λ t. leb now (t + minute)) log)

in_minute-append :
    (now : ℕ) (xs ys : List ℕ)
    → All (λ t. t + minute < now) xs
    → in_minute now (xs ++ ys) ≤ length ys
unfolding select
in_minute-append now [] ys h = length-select (λ t. leb now (t + minute)) ys
in_minute-append now (x ∷ xs) ys h = ground (arith, h.0, in_minute-append now xs ys h.1)

-- A limiter with a limit, which starts with no requests: after any run of timely calls, at most
-- max_rpm of all the requests that it granted lie in the minute before the last call.
pub serve_all_rate :
    (cs : List Clock) (l : RateLimiter) (start : ℕ)
    → 1 ≤ l.max_rpm
    → l.timestamps ≡ []
    → AreTimely (l, []) cs start
    → in_minute (last_of cs start) (serve_all (l, []) cs).1 ≤ l.max_rpm
serve_all_rate cs l start n e t =
    let w =
      serve_all-IsWindowed cs l [] start n t
        (record { limit = rw e (omega arith); gone = []; split = sym e; expired = tt }) in
    rw w.split (omega (arith, w.limit, in_minute-append (last_of cs start) w.gone _ w.expired))
