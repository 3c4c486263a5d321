-- ===== src/Prompt/CacheModel.antt =====
-- src/prompt/cache_model.go: the rendered segments that an engine keeps, by the strategy of each.
-- Times are nanoseconds. The device cache of the daemon, where one is injected, is that of
-- Daemon/DeviceCache; `seconds_of` is `Duration.Seconds` (Cache/Duration), and its product with a
-- second is assumed not to overflow.
pub mod Lookup
use Prim.Native.String.{◌++◌ as append_text}
use prompto.Prelude.{
  ℕ, ◌*◌, ◌+◌, ◌-◌, Bool, true, false, not, ◌||◌, ◌&&◌, [], Option, none, some, String,
  if◌then◌else◌, ◌==◌, string_comparable,
}
use prompto.Prelude.Int.{ℤ, pos, negsuc, ◌-ℤ◌, ltb_ℤ, is_pos}
use prompto.Prelude.Dict.{Dict, lookup, insert, is_some}
use prompto.Daemon.DeviceCache.{SegmentRenderValue, DeviceCache, get, set}
use prompto.Cache.Duration.{is_empty, infinite}
use prompto.Config.Segment.{
  Segment, Host, Cache, session, device, folder, name_of, folder_key, daemon_cache_key, text_of,
  set_text, resolve_foreground, resolve_background, map_segment_with_writer,
}

-- The engine's caches, and the one of the process.
pub record Caches : Type 0 where
  pub has_layout : Bool
  pub session_cache : Dict String SegmentRenderValue
  pub folder_cache : Dict String SegmentRenderValue
  pub global_cache : Dict String SegmentRenderValue
  pub device_cache : Option DeviceCache

-- `time.Duration(n) * time.Second`
abbrev pub of_seconds : ℤ → ℤ
of_seconds (pos n) = pos (n * 1_000_000_000)
of_seconds (negsuc n) = negsuc (n * 1_000_000_000 + 999_999_999)

abbrev pub duration_of : Cache → String
duration_of c = c.duration

unfoldable pub cache_key_for_segment : Host → Segment → String × String
cache_key_for_segment h s = elim s.cache [
  | none ↦ (daemon_cache_key h s, folder)
  | some c ↦
      if c.strategy == session
      then (name_of h s, session)
      else if c.strategy == device
      then (name_of h s, device)
      else (append_text (name_of h s) (append_text "::" (folder_key h s)), folder)
]

unfoldable pub segment_cache_ttl : (String → ℤ) → Segment → ℤ
segment_cache_ttl seconds_of s = elim s.cache [
  | none ↦ pos 0
  | some c ↦ if is_empty c.duration then pos 0 else of_seconds (seconds_of c.duration)
]

abbrev pub entry_of : Host → Segment → ℤ → SegmentRenderValue
entry_of h s rendered_at = record {
  rendered_at = rendered_at;
  text = text_of s;
  foreground = resolve_foreground h s;
  background = resolve_background h s;
}

-- `storeSegmentCache` behind its guard.
unfoldable pub store_at : Caches → String × String → SegmentRenderValue → ℤ → ℤ → Caches
store_at c (key, strategy) entry ttl now =
    if strategy == session
    then record c { session_cache = insert key entry c.session_cache }
    else elim c.device_cache [
      | some d ↦ record c { device_cache = some (set d key entry ttl now) }
      | none ↦
          if strategy == folder
          then record c { folder_cache = insert key entry c.folder_cache }
          else record c { global_cache = insert key entry c.global_cache }
    ]

unfoldable pub store_segment_cache : Host → (String → ℤ) → Caches → Segment → ℤ → ℤ → Caches
unfolding store_at cache_key_for_segment segment_cache_ttl
store_segment_cache h seconds_of c s rendered_at now =
    if not c.has_layout || not s.enabled
    then c
    else store_at c (cache_key_for_segment h s) (entry_of h s rendered_at)
        (segment_cache_ttl seconds_of s) now

-- The read of `getSegmentCache`; one of the daemon's cache drops an entry that has expired.
unfoldable pub read_at : Caches → String × String → ℤ → Option SegmentRenderValue × Caches
read_at c (key, strategy) now =
    if strategy == session then (lookup key c.session_cache, c) else elim c.device_cache [
      | some d ↦ let (found, d') = get d key now in (found, record c { device_cache = some d' })
      | none ↦
          (if strategy == folder then lookup key c.folder_cache else lookup key c.global_cache, c)
    ]

-- The entry, and whether the segment's cache is configured.
unfoldable pub get_segment_cache :
    Host → Caches → Segment → ℤ → (Option SegmentRenderValue × Bool) × Caches
unfolding read_at cache_key_for_segment
get_segment_cache h c s now =
    let (found, c') = read_at c (cache_key_for_segment h s) now in ((found, is_some s.cache), c')

abbrev pub colour_or : String → String → String
colour_or new old = if not (new == "") then new else old

unfoldable pub apply_segment_cache_entry : Host → Segment → SegmentRenderValue → Segment
apply_segment_cache_entry h s entry =
    let (s', mapped) = map_segment_with_writer h s in
    if not mapped
    then s'
    else (let shown = set_text (record s' { enabled = true }) entry.text in
        record shown {
          foreground = colour_or entry.foreground s'.foreground;
          background = colour_or entry.background s'.background;
        })

-- Whether an entry of a segment with a cache is used in place of an execution.
unfoldable pub is_fresh : (String → ℤ) → Cache → SegmentRenderValue → ℤ → Bool
is_fresh seconds_of cache entry now =
    if is_empty cache.duration || cache.duration == infinite
    then true
    else if not (is_pos (of_seconds (seconds_of cache.duration)))
    then true
    else not (ltb_ℤ (of_seconds (seconds_of cache.duration)) (now -ℤ entry.rendered_at))

-- What `applySegmentCacheBeforeExecute` does with the entry that it found.
unfoldable pub use_entry : Host → (String → ℤ) → Segment → SegmentRenderValue → ℤ → Bool × Segment
unfolding apply_segment_cache_entry is_fresh
use_entry h seconds_of s entry now = elim s.cache [
  | none ↦
      let (s', mapped) = map_segment_with_writer h s in
      if not mapped then (false, s') else (
        false,
        record (set_text s' entry.text) {
          foreground = entry.foreground;
          background = entry.background;
        },
      )
  | some cache ↦ (is_fresh seconds_of cache entry now, apply_segment_cache_entry h s entry)
]

abbrev pub use_found :
    Host → (String → ℤ) → Segment → ℤ → Caches → Option SegmentRenderValue → Bool × Segment × Caches
use_found h seconds_of s now c none = (false, s, c)
use_found h seconds_of s now c (some entry) =
    let (reused, s') = use_entry h seconds_of s entry now in (reused, s', c)

unfoldable pub apply_segment_cache_before_execute :
    Host → (String → ℤ) → Caches → Segment → ℤ → Bool × Segment × Caches
unfolding get_segment_cache use_entry
apply_segment_cache_before_execute h seconds_of c s now =
    let ((found, explicit), c') = get_segment_cache h c s now in
    if not c.has_layout then (false, s, c) else use_found h seconds_of s now c' found
