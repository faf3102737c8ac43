-- ===== src/RateLimit/Samples.antt =====
-- The theorem about the rate limiter at a limit of two requests.
use lit_trace.Base.{ℕ, ◌*◌, ◌≤◌, refl, List, [], ◌∷◌, none, arith}
use lit_trace.StateDb.{second}
use lit_trace.RateLimit.{RateLimiter, Clock, evict, acquire, admitted}
use lit_trace.RateLimit.Window.{AreTimely, serve, serve_all, last_of, in_minute, serve_all_rate}

abbrev limiter : RateLimiter
limiter = record {
  max_concurrent = 0;
  max_rpm = 2;
  semaphore = none;
  timestamps = [];
  total_acquired = 0;
  total_waited = 0;
}

-- Two requests at once, and a third one that waits for a minute.
abbrev at_once : ℕ → Clock
at_once now = record { entered = now; woken = now; stamped = now }

abbrev waiting : Clock
waiting = record { entered = 3 * second; woken = 62 * second; stamped = 62 * second }

abbrev calls : List Clock
calls = at_once second ∷ at_once (2 * second) ∷ waiting ∷ []

calls_timely : AreTimely (limiter, []) calls 0
unfolding evict serve acquire admitted
calls_timely = (
  record {
    later = omega arith;
    slept = λ h. absurd (omega (arith, h));
    woke = omega arith;
    appended = omega arith;
  },
  (
    record {
      later = omega arith;
      slept = λ h. absurd (omega (arith, h));
      woke = omega arith;
      appended = omega arith;
    },
    (
      record {
        later = omega arith;
        slept = λ h. omega arith;
        woke = omega arith;
        appended = omega arith;
      },
      tt,
    ),
  ),
)

serve_all_rate_example : in_minute (last_of calls 0) (serve_all (limiter, []) calls).1 ≤ 2
serve_all_rate_example = serve_all_rate calls limiter 0 (omega arith) refl calls_timely
