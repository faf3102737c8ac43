-- ===== src/RateLimit/Eviction.antt =====
-- What the eviction takes from a window of time stamps.
use lit_trace.Base.{
  ℕ, ◌+◌, ◌≤◌, ◌<◌, ◌≡◌, refl, ap, true, List, [], ◌∷◌, ◌++◌, arith, ltb, length, Bool-cases, inl,
  inr,
}
use lit_trace.Base.All.{All, All-mono}
use lit_trace.RateLimit.{minute, evict, wait_seconds}

pub evict-split :
    (now : ℕ) (ts : List ℕ)
    → (gone : List ℕ) × (ts ≡ gone ++ evict now ts) × All (λ t. t + minute < now) gone
unfolding evict
evict-split now [] = ([], refl, tt)
evict-split now (t ∷ ts) = elim (Bool-cases (ltb (t + minute) now)) [
  | inr fresh ↦ rw fresh ([], refl, tt)
  | inl expired ↦
      let (gone, e, k) = evict-split now ts in
      rw expired (t ∷ gone, ap (λ us. t ∷ us) e, (ground (arith, expired), k))
]

pub evict-length : (now : ℕ) (ts : List ℕ) → length (evict now ts) ≤ length ts
unfolding evict
evict-length now [] = omega arith
evict-length now (t ∷ ts) = ground (arith, evict-length now ts)

-- After a sleep that outlasts the oldest stamp, the window is shorter.
pub evict-shorter :
    (entered now : ℕ) (ts : List ℕ)
    → 1 ≤ length ts
    → entered + wait_seconds entered ts < now
    → length (evict now ts) < length ts
unfolding evict
evict-shorter entered now [] n h = absurd (omega arith)
evict-shorter entered now (t ∷ ts) n h =
    let expired : ltb (t + minute) now ≡ true = ground arith in
    rw expired (omega (arith, evict-length now ts))

pub ++_assoc : (xs ys zs : List ℕ) → (xs ++ ys) ++ zs ≡ xs ++ (ys ++ zs)
++_assoc [] ys zs = refl
++_assoc (x ∷ xs) ys zs = ap (λ us. x ∷ us) (++_assoc xs ys zs)

pub older :
    (now later : ℕ) (ts : List ℕ)
    → now ≤ later
    → All (λ t. t + minute < now) ts
    → All (λ t. t + minute < later) ts
older now later ts h k = All-mono _ _ ts (λ t e. omega (arith, e, h)) k
