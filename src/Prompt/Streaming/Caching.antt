-- ===== src/Prompt/Streaming/Caching.antt =====
-- That a streaming prompt of src/prompt/streaming.go and a plain one of src/prompt/cache_model.go use
-- the same cached segments, of those that have their writer. A plain prompt of src/prompt/segments.go
-- looks a segment up before it has one, which is another key for a segment without an environment.
use prompto.Prelude.{
  ◌≡◌, refl, sym, ap, ◌∙◌, inl, inr, Bool, true, false, not, ◌||◌, Option, none, some, String,
  if◌then◌else◌, ◌==◌, string_comparable, arith, Bool-cases,
}
use prompto.Prelude.Int.{ℤ, pos, negsuc, ◌-ℤ◌, ltb_ℤ, is_pos}
use prompto.Prelude.Dict.{lookup, is_some, lookup-insert_self}
use prompto.Cache.Duration.{seconds, is_empty, infinite}
use prompto.Daemon.DeviceCache.{SegmentRenderValue}
use prompto.Config.Segment.{Segment, Host, Cache, map_segment_with_writer}
use prompto.Prompt.CacheModel.{
  use_found, Caches, of_seconds, get_segment_cache, is_fresh, use_entry,
  apply_segment_cache_before_execute,
}
use prompto.Prompt.Streaming.{looked_up, prepare_segment, Prepared, reuses, prepare_found}

of_seconds_sign : (n : ℤ) → is_pos (of_seconds n) ≡ is_pos n
of_seconds_sign (pos n) = ground arith
of_seconds_sign (negsuc n) = refl

module _ (parse_seconds : String → Option ℤ) where
  seconds-infinite : seconds parse_seconds infinite ≡ negsuc 0
  unfolding seconds
  seconds-infinite = refl

  same_test :
      (cache : Cache) (age : ℤ)
      → (if is_empty cache.duration || not (is_pos (seconds parse_seconds cache.duration))
          then true
          else not (ltb_ℤ (of_seconds (seconds parse_seconds cache.duration)) age))
        ≡ (if is_empty cache.duration || cache.duration == infinite
            then true
            else if not (is_pos (of_seconds (seconds parse_seconds cache.duration)))
            then true
            else not (ltb_ℤ (of_seconds (seconds parse_seconds cache.duration)) age))
  same_test cache age = elim (Bool-cases (is_empty cache.duration)) [
    | inl empty ↦ rw empty
    | inr given ↦ elim (Bool-cases (cache.duration == infinite)) [
      | inl forever ↦ rw given (
          rw forever (
            rw
              (ap (seconds parse_seconds)
                  ((string_comparable.equals_iff cache.duration infinite).0 forever)
                ∙ seconds-infinite)
              refl))
      | inr timed ↦
          rw given (rw timed (rw (of_seconds_sign (seconds parse_seconds cache.duration)) refl))
    ]
  ]

  reuses-is_fresh :
      (cache : Cache) (entry : SegmentRenderValue) (now : ℤ)
      → reuses (seconds parse_seconds) cache entry now
        ≡ is_fresh (seconds parse_seconds) cache entry now
  unfolding reuses is_fresh
  reuses-is_fresh cache entry now = same_test cache (now -ℤ entry.rendered_at)

  module _ (h : Host) (now : ℤ) (p : Prepared) (key : String)
      (pending : lookup key p.completed ≡ none) where
    -- Whether the segment's value is the cached one.
    abbrev used_by_plain : Segment → Option SegmentRenderValue → Bool
    used_by_plain s none = false
    used_by_plain s (some entry) = (use_entry h (seconds parse_seconds) s entry now).0

    abbrev is_completed : Prepared → Bool
    is_completed p' = is_some (lookup key p'.completed)

    completed_if :
        (b : Bool) (x y : Prepared)
        → is_completed x ≡ true
        → is_completed y ≡ false
        → is_completed (if b then x else y) ≡ b
    completed_if true x y hx hy = hx
    completed_if false x y hx hy = hy

    neither :
        (b : Bool) (x y : Bool × Segment)
        → x.0 ≡ false
        → y.0 ≡ false
        → false ≡ (if b then x else y).0
    neither true x y hx hy = sym hx
    neither false x y hx hy = sym hy

    completed-entry :
        (s : Segment) (entry : SegmentRenderValue) (o : Option Cache)
        → let t : Segment = record s { cache = o } in
          is_completed (prepare_found h (seconds parse_seconds) now p key t (some entry))
          ≡ used_by_plain t (some entry)
    unfolding prepare_found use_entry
    completed-entry s entry none =
        ap is_some pending
        ∙ neither (not (map_segment_with_writer h (record s { cache = none })).1) _ _ refl refl
    completed-entry s entry (some cache) =
        completed_if (reuses (seconds parse_seconds) cache entry now) _ _
          (ap is_some (lookup-insert_self key true p.completed)) (ap is_some pending)
        ∙ reuses-is_fresh cache entry now

    completed-found :
        (s : Segment) (o : Option SegmentRenderValue)
        → is_completed (prepare_found h (seconds parse_seconds) now p key s o) ≡ used_by_plain s o
    unfolding prepare_found
    completed-found s none = ap is_some pending
    completed-found s (some entry) = completed-entry s entry s.cache

    before_execute-some :
        (c : Caches) (s : Segment)
        → c.has_layout ≡ true
        → (apply_segment_cache_before_execute h (seconds parse_seconds) c s now).0
          ≡ used_by_plain s (get_segment_cache h c s now).0.0
    unfolding apply_segment_cache_before_execute
    before_execute-some c s layout =
        let (found, explicit) = (get_segment_cache h c s now).0 in
        let c' = (get_segment_cache h c s now).1 in
        ap
          (λ b.
            (if not b then (false, s, c) else use_found h (seconds parse_seconds) s now c' found).0)
          layout
        ∙ plain_found found c'
      where
        plain_found :
            (o : Option SegmentRenderValue) (c' : Caches)
            → (use_found h (seconds parse_seconds) s now c' o).0 ≡ used_by_plain s o
        plain_found none c' = refl
        plain_found (some entry) c' = refl

    found_twice :
        (c : Caches) (s : Segment)
        → c.has_layout ≡ true
        → is_completed
            (prepare_found h (seconds parse_seconds) now p key s (get_segment_cache h c s now).0.0)
          ≡ (apply_segment_cache_before_execute h (seconds parse_seconds) c s now).0
    found_twice c s layout =
        completed-found s (get_segment_cache h c s now).0.0 ∙ sym (before_execute-some c s layout)

  -- In an engine with a layout, a streaming prompt takes the cached value of a segment, which it has
  -- not taken before, in place of executing it exactly if a plain prompt would, at the same time, take
  -- the cached value of the segment once it has its writer.
  pub prepare_segment-before_execute :
      (h : Host) (now : ℤ) (p : Prepared) (key : String) (s : Segment)
      → lookup key p.completed ≡ none
      → p.engine.caches.has_layout ≡ true
      → is_some (lookup key (prepare_segment h (seconds parse_seconds) now p key s).completed)
        ≡ (apply_segment_cache_before_execute h
            (seconds parse_seconds)
            p.engine.caches
            (map_segment_with_writer h s).0
            now).0
  unfolding prepare_segment
  prepare_segment-before_execute h now p key s pending layout =
      let s' = (map_segment_with_writer h s).0 in
      found_twice h now (record p { engine = looked_up h now p.engine key s' }) key pending
        p.engine.caches s' layout
