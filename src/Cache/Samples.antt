-- ===== src/Cache/Samples.antt =====
-- The theorem about the cache at one text, read half a second after its time to live.
use lit_trace.Base.{◌≡◌, true, false, none, []}
use lit_trace.Cache.{seconds, read_cached_text, write_text_cache, time}
use lit_trace.Cache.Expiry.{write_text_cache-read_cached_text}

write_text_cache-read_cached_text_example :
    read_cached_text
      (seconds 60)
      "search/k"
      none
      false
      60500050
      (write_text_cache (seconds 60) "search/k" "text" none 50 [])
    ≡ (record { value = none; stale = true; created_at = time 50 })
write_text_cache-read_cached_text_example =
    write_text_cache-read_cached_text (seconds 60) "search/k" "text" none 50 [] false 60500050
