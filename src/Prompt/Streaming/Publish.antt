-- ===== src/Prompt/Streaming/Publish.antt =====
-- src/prompt/streaming.go: the publisher, which merges and announces the results that come after the
-- first drawing, and the repaints between them.
use prompto.Prelude.{
  Bool, true, false, not, ◌||◌, List, [], ◌∷◌, Option, none, some, String, if◌then◌else◌, ◌==◌,
  string_comparable,
}
use prompto.Prelude.Int.{ℤ}
use prompto.Prelude.Dict.{Dict, lookup, insert, delete}
use prompto.Daemon.DeviceCache.{SegmentRenderValue}
use prompto.Config.Segment.{
  Segment, Host, name_of, map_segment_with_writer, ensure_writer, daemon_cache_key,
}
use prompto.Config.Segment.Execution.{execute}
use prompto.Prompt.CacheModel.{get_segment_cache, apply_segment_cache_entry}
use prompto.Prompt.Streaming.{
  Engine, StreamingResult, vim, segments_timed_out, merge_streaming_result_locked,
  mark_pending_segments_timed_out,
}

-- What the publisher's `select` receives: a result, the end of the results, the deadline's timer, or
-- the end of the context.
pub data Event : Type 0 where
  receives : StreamingResult → Bool → Event
  closes : Bool → Event
  expires : Bool → Event
  cancels : Event

-- The publisher: whether its timer may still fire, whether it has returned, and what it has called
-- `updateCallback` with, the last one first.
pub record Publisher : Type 0 where
  pub engine : Engine
  pub armed : Bool
  pub over : Bool
  pub announced : List String

abbrev pub segment_name : Host → Engine → String → String
segment_name h e key = elim (lookup key e.segments) [ none ↦ "" | some s ↦ name_of h s ]

-- The engine when a result has been taken.
abbrev pub settled : Host → Engine → StreamingResult → Engine
settled h e result =
    let e' = merge_streaming_result_locked h e false result in
    record e' {
      pending_segments = delete result.key e'.pending_segments;
      timed_out_segments = delete result.key e'.timed_out_segments;
    }

-- One turn of the loop of `publishStreamingResults`.
unfoldable pub publish_event : Host → Publisher → Event → Publisher
publish_event h p (receives result cancelled) =
    let e = settled h p.engine result in
    if p.over
    then p
    else if cancelled
    then record p { over = true }
    else record p { engine = e; announced = segment_name h e result.key ∷ p.announced }
publish_event h p (closes cancelled) =
    if p.over
    then p
    else record p { over = true; announced = if cancelled then p.announced else "" ∷ p.announced }
publish_event h p (expires cancelled) =
    let (e, marked) = mark_pending_segments_timed_out p.engine cancelled in
    if p.over || not p.armed then p else record p {
      engine = e;
      armed = false;
      announced = if marked then segments_timed_out ∷ p.announced else p.announced;
    }
publish_event h p cancels = record p { over = true }

-- A segment other than the one of the editor's mode, in a repaint: its cached entry shows in its
-- placeholder while it is pending, and is its value otherwise.
abbrev pub repaint_entry :
    Host → Engine → String → Segment → SegmentRenderValue → Option Bool → Engine
repaint_entry h e key s entry (some b) = record e {
  cached_values = insert key entry.text e.cached_values;
}
repaint_entry h e key s entry none = record e {
  segments = insert key (apply_segment_cache_entry h s entry) e.segments;
}

abbrev pub repaint_found : Host → Engine → String → Segment → Option SegmentRenderValue → Engine
repaint_found h e key s none = e
repaint_found h e key s (some entry) = repaint_entry h e key s entry (lookup key e.pending_segments)

abbrev pub cache_key_of : Engine → String → String
cache_key_of e key = elim (lookup key e.segment_cache_keys) [ none ↦ "" | some k ↦ k ]

unfoldable pub repaint_segment : Host → ℤ → Engine → String → Segment → Engine
repaint_segment h now e key s =
    if s.type == vim
    then (let (s', shared) = execute h (map_segment_with_writer h s).0 e.shared in
        record e { segments = insert key s' e.segments; shared = shared; vim_repainted = true })
    else (let s' = (ensure_writer h s).0 in
        let ((found, explicit), caches) = get_segment_cache h e.caches s' now in
        let e' : Engine = record e {
          segments = insert key s' e.segments;
          segment_cache_keys =
              if cache_key_of e key == ""
              then insert key (daemon_cache_key h s') e.segment_cache_keys
              else e.segment_cache_keys;
          caches = caches;
        } in
        repaint_found h e' key s' found)

unfoldable pub repaint_segments : Host → ℤ → Engine → Dict String Segment → Engine
unfolding repaint_segment
repaint_segments h now e [] = e
repaint_segments h now e ((key, s) ∷ rest) =
    repaint_segments h now (repaint_segment h now e key s) rest

abbrev pub or_else : Dict String Segment → Dict String Segment → Dict String Segment
or_else [] segments = segments
or_else (x ∷ xs) segments = x ∷ xs

-- `PrimaryRepaint` up to its drawing. `segments` is what the layout gives an engine that has none.
unfoldable pub primary_repaint : Host → ℤ → Dict String Segment → Engine → Engine
unfolding repaint_segments
primary_repaint h now segments e =
    let blocks = or_else e.segments segments in
    repaint_segments h now (record e { segments = blocks }) blocks

-- What happens to an engine while its publisher runs.
pub data Action : Type 0 where
  publishes : Event → Action
  repaints : ℤ → Dict String Segment → Action

unfoldable pub act : Host → Publisher → Action → Publisher
act h p (publishes event) = publish_event h p event
act h p (repaints now segments) = record p { engine = primary_repaint h now segments p.engine }

unfoldable pub run : Host → Publisher → List Action → Publisher
unfolding act
run h p [] = p
run h p (action ∷ actions) = run h (act h p action) actions
