-- ===== src/Cache/Expiry.antt =====
-- What a read finds of what was written, and until when.
use lit_trace.Base.{
  ◌+◌, ◌*◌, nat_eq, leb, ◌||◌, ℕ, String, ◌≡◌, ◌≢◌, refl, Bool, false, not, Option, none, some,
  List, ◌==◌, arith, eq_iff, eq_refl, if◌then◌else◌, find,
}
use lit_trace.Cache.{
  negative, seconds, second, Ttl, Entry, read_cached_text, write_text_cache, or_default, is_stale,
  time,
}

-- Whether a text that was written at a time is still in its time to live.
abbrev pub in_time : Ttl → (written_at later : ℕ) → Bool
in_time negative t later = false
in_time (seconds n) t later = nat_eq n 0 || leb later (t + n * second)

is_stale-in_time : (d : Ttl) (t later : ℕ) → is_stale d (time t) later ≡ not (in_time d t later)
is_stale-in_time negative t later = refl
is_stale-in_time (seconds n) t later = ground arith

module _ (default : Ttl) (path value : String) (ttl : Option Ttl) (now : ℕ)
    (entries : List Entry) where
  abbrev written : List Entry
  written = write_text_cache default path value ttl now entries

  -- A text that was written, with a time to live or else with the default: with zero seconds it is
  -- read back at any time; with `n` more than zero until `n` seconds after it was written, to the microsecond, and
  -- after that the read answers that it is stale; with a negative time to live it is stale at once. A stale
  -- text is given only if stale texts are allowed.
  pub write_text_cache-read_cached_text :
      (allow_stale : Bool) (later : ℕ)
      → let fresh = in_time (or_default ttl default) now later in
        read_cached_text default path none allow_stale later written ≡ (record {
          value = if fresh || allow_stale then some value else none;
          stale = not fresh;
          created_at = time now;
        })
  unfolding read_cached_text write_text_cache find
  write_text_cache-read_cached_text allow_stale later =
      rw (eq_refl path, find)
        (rw (is_stale-in_time (or_default ttl default) now later) (ground arith))

  -- A write leaves what is read of every other path.
  pub write_text_cache_others :
      (other : String) (given : Option Ttl) (allow_stale : Bool) (later : ℕ)
      → other ≢ path
      → read_cached_text default other given allow_stale later written
        ≡ read_cached_text default other given allow_stale later entries
  unfolding read_cached_text write_text_cache find
  write_text_cache_others other given allow_stale later h =
      let miss : (path == other) ≡ false = ground (arith, eq_iff path other, h) in rw miss refl
