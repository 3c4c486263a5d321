-- ===== src/Prompt/CacheModel/Lookup.antt =====
-- What the caches of src/prompt/cache_model.go give back of what was stored.
use prompto.Prelude.{
  ◌≡◌, ap, ◌∙◌, inl, inr, true, false, not, ◌&&◌, Option, none, some, String, if◌then◌else◌, ◌==◌,
  string_comparable, arith, Bool-cases,
}
use prompto.Prelude.Int.{ℤ, ◌+ℤ◌, ltb_ℤ, is_neg}
use prompto.Prelude.Dict.{lookup-insert}
use prompto.Daemon.DeviceCache.{SegmentRenderValue, DeviceCache, effective_ttl}
use prompto.Daemon.DeviceCache.Expiry.{found-set}
use prompto.Config.Segment.{Segment, Host, session, folder}
use prompto.Prompt.CacheModel.{
  Caches, cache_key_for_segment, segment_cache_ttl, entry_of, store_at, store_segment_cache,
  read_at, get_segment_cache,
}

-- What is left, at a later time, of an entry that was stored with a time to live: the session's
-- cache, and the caches of an engine without the daemon's, keep it; the daemon's lets it expire.
abbrev pub kept_entry : Caches → String → SegmentRenderValue → ℤ → ℤ → ℤ → Option SegmentRenderValue
kept_entry c strategy entry ttl now later =
    if strategy == session then some entry else elim c.device_cache [
      | none ↦ some entry
      | some d ↦
          if not (is_neg (effective_ttl d ttl)) && ltb_ℤ (now +ℤ effective_ttl d ttl) later
          then none
          else some entry
    ]

module _ (key other strategy : String) (entry : SegmentRenderValue) (ttl now later : ℤ) where
  abbrev Reads : Caches → Type 0
  Reads c = (read_at (store_at c (key, strategy) entry ttl now) (other, strategy) later).0 ≡ (
      if key == other
      then kept_entry c strategy entry ttl now later
      else (read_at c (other, strategy) later).0)

  Reads-behind :
      (c : Caches) (o : Option DeviceCache)
      → (strategy == session) ≡ false
      → Reads (record c { device_cache = o })
  unfolding read_at store_at
  Reads-behind c none n = elim (Bool-cases (strategy == folder)) [
    | inl f ↦ ground (arith, n, f, lookup-insert key other entry c.folder_cache)
    | inr g ↦ ground (arith, n, g, lookup-insert key other entry c.global_cache)
  ]
  Reads-behind c (some d) n = rw n (found-set d key other entry ttl now later)

  read_at-store_at : (c : Caches) → Reads c
  unfolding read_at store_at
  read_at-store_at c = elim (Bool-cases (strategy == session)) [
    | inl s ↦ rw s (lookup-insert key other entry c.session_cache)
    | inr n ↦ Reads-behind c c.device_cache n
  ]

module _ (h : Host) (seconds_of : String → ℤ) (c : Caches) (s t : Segment)
    (rendered_at now later : ℤ) where
  store_segment_cache_at :
      c.has_layout ≡ true
      → s.enabled ≡ true
      → store_segment_cache h seconds_of c s rendered_at now
        ≡ store_at c
            (cache_key_for_segment h s)
            (entry_of h s rendered_at)
            (segment_cache_ttl seconds_of s)
            now
  unfolding store_segment_cache
  store_segment_cache_at layout enabled = rw (layout, enabled)

  -- After a segment that is enabled has been stored by an engine with a layout, a segment whose
  -- cache has the same strategy is found under its key as before, unless that is the same key: then
  -- the text and the colours of the segment stored are found, until the daemon's device cache, if
  -- that keeps them, lets them expire.
  pub get_segment_cache-store_segment_cache :
      c.has_layout ≡ true
      → s.enabled ≡ true
      → (cache_key_for_segment h s).1 ≡ (cache_key_for_segment h t).1
      → (get_segment_cache h (store_segment_cache h seconds_of c s rendered_at now) t later).0.0 ≡ (
          if (cache_key_for_segment h s).0 == (cache_key_for_segment h t).0
          then kept_entry c
              (cache_key_for_segment h t).1
              (entry_of h s rendered_at)
              (segment_cache_ttl seconds_of s)
              now
              later
          else (get_segment_cache h c t later).0.0)
  unfolding get_segment_cache
  get_segment_cache-store_segment_cache layout enabled same =
      let (key, strategy) = cache_key_for_segment h t in
      ap (λ c'. (read_at c' (key, strategy) later).0)
        (store_segment_cache_at layout enabled
          ∙ ap
              (λ k.
                store_at c ((cache_key_for_segment h s).0, k) (entry_of h s rendered_at)
                  (segment_cache_ttl seconds_of s) now)
              same)
      ∙ read_at-store_at (cache_key_for_segment h s).0 key strategy (entry_of h s rendered_at)
          (segment_cache_ttl seconds_of s) now later c
