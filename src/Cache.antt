-- ===== src/Cache.antt =====
-- cache.py: the text cache, a file of text and a file of metadata for each key.
-- Times are microseconds, as of the source's `datetime`; a time to live is an integer of seconds, negative
-- for an entry that is always stale.
pub mod Expiry
pub mod Samples
use lit_trace.Base.{
  ℕ, ◌+◌, ◌-◌, ◌*◌, String, Bool, true, false, not, Option, none, some, List, [], ◌∷◌, ◌&&◌, ◌==◌,
  ltb, if◌then◌else◌, is_none, find, exists,
}

-- `timedelta(seconds=1)` in microseconds.
abbrev pub second : ℕ
second = 1000000

pub data Ttl : Type 0 where
  negative : Ttl
  seconds : ℕ → Ttl

-- `created_at` of the metadata: absent, a time, or a text that is no time.
pub data CreatedAt : Type 0 where
  absent : CreatedAt
  time : ℕ → CreatedAt
  not_a_time : CreatedAt

-- The metadata file, where it can be read as JSON; `ttl_seconds` where it is an integer.
pub record Metadata : Type 0 where
  pub created_at : CreatedAt
  pub ttl_seconds : Option Ttl

-- The files of one key: the text, and the metadata, which is none where it is missing or broken.
pub record Entry : Type 0 where
  pub path : String
  pub text : String
  pub metadata : Option Metadata

pub record CachedText : Type 0 where
  pub value : Option String
  pub stale : Bool
  pub created_at : CreatedAt

-- `_cache_path`, below the cache directory.
abbrev pub of_path : String → Entry → Bool
of_path path e = e.path == path

abbrev pub created_of : Option Metadata → CreatedAt
created_of none = absent
created_of (some m) = m.created_at

abbrev pub stored_ttl : Option Metadata → Option Ttl
stored_ttl none = none
stored_ttl (some m) = m.ttl_seconds

-- The argument, else what was stored, else the default of the configuration.
abbrev pub effective_ttl : (given stored : Option Ttl) → Ttl → Ttl
effective_ttl (some t) stored d = t
effective_ttl none (some t) d = t
effective_ttl none none d = d

-- `effective_ttl > 0 and created_at`: with no time to live, or no creation time, an entry is never stale.
abbrev pub outlived : ℕ → CreatedAt → ℕ → Bool
outlived ttl absent now = false
outlived ttl (time t) now = ltb 0 ttl && ltb (ttl * second) (now - t)
outlived ttl not_a_time now = ltb 0 ttl

abbrev pub is_stale : Ttl → CreatedAt → ℕ → Bool
is_stale negative created now = true
is_stale (seconds ttl) created now = outlived ttl created now

abbrev pub answer : Entry → (stale allow_stale : Bool) → CachedText
answer e stale allow_stale =
    if stale && not allow_stale
    then record { value = none; stale = true; created_at = created_of e.metadata }
    else record { value = some e.text; stale = stale; created_at = created_of e.metadata }

abbrev pub read_entry : Ttl → Bool → ℕ → Entry → CachedText
read_entry ttl allow_stale now e = answer e (is_stale ttl (created_of e.metadata) now) allow_stale

abbrev pub read_found : Ttl → Option Ttl → Bool → ℕ → Option Entry → CachedText
read_found default ttl allow_stale now none = record {
  value = none;
  stale = false;
  created_at = absent;
}
read_found default ttl allow_stale now (some e) =
    read_entry (effective_ttl ttl (stored_ttl e.metadata) default) allow_stale now e

unfoldable pub read_cached_text :
    Ttl → String → Option Ttl → (allow_stale : Bool) → ℕ → List Entry → CachedText
read_cached_text default path ttl allow_stale now entries =
    read_found default ttl allow_stale now (find (of_path path) entries)

unfoldable pub read_text_cache : Ttl → String → ℕ → List Entry → Option String
unfolding read_cached_text
read_text_cache default path now entries =
    (read_cached_text default path none false now entries).value

abbrev pub or_default : Option Ttl → Ttl → Ttl
or_default none d = d
or_default (some t) d = t

-- Both files are written anew: the newest entry of a path is the one that counts.
unfoldable pub write_text_cache : Ttl → String → String → Option Ttl → ℕ → List Entry → List Entry
write_text_cache default path value ttl now entries =
    record {
      path = path;
      text = value;
      metadata =
          some (record { created_at = time now; ttl_seconds = some (or_default ttl default) });
    }
    ∷ entries
