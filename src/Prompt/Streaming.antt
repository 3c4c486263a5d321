-- ===== src/Prompt/Streaming.antt =====
-- src/prompt/streaming.go: a prompt that is drawn before all of its segments have their value, and
-- the results that follow. A segment is named by its stream key, which tells the scope, the block
-- and the position, in place of a pointer to it; `segments` stands in the order of the block sets.
-- Each function is a section under `streamingMu`; what a `select` receives is an event, which says
-- whether the context is cancelled by the time that the code looks at it. How segments are run
-- is in Config/Segment and Prompt/Streaming/Workers, and drawing is in Prompt/Streaming/Blocks.
pub mod Publish
pub mod Workers
pub mod Blocks
pub mod SameMarks
pub mod Marks
pub mod Settling
pub mod Stale
pub mod Caching
use prompto.Prelude.{
  ℕ, Bool, true, false, not, ◌||◌, ◌&&◌, List, [], ◌∷◌, ◌++◌, Option, none, some, String,
  if◌then◌else◌, ◌==◌, string_comparable, length, ltb,
}
use prompto.Prelude.Int.{ℤ, ◌-ℤ◌, ltb_ℤ, is_pos}
use prompto.Prelude.Dict.{Dict, lookup, insert, delete}
use prompto.Daemon.DeviceCache.{SegmentRenderValue}
use prompto.Cache.Duration.{is_empty}
use prompto.Config.Segment.{
  Segment, Host, Cache, Shared, Writer, clone, name_of, copy_writer_state_from,
  map_segment_with_writer, ensure_writer, daemon_cache_key,
}
use prompto.Config.Segment.Execution.{execute}
use prompto.Prompt.CacheModel.{Caches, of_seconds, get_segment_cache, apply_segment_cache_entry}

abbrev pub vim : String
vim = "vim"

-- The label of the update that marks segments as timed out.
abbrev pub segments_timed_out : String
segments_timed_out = "__prompto_segments_timed_out__"

pub record Engine : Type 0 where
  pub segments : Dict String Segment
  pub pending_segments : Dict String Bool
  pub timed_out_segments : Dict String Bool
  pub cached_values : Dict String String
  pub segment_cache_keys : Dict String String
  pub vim_repainted : Bool
  pub caches : Caches
  pub shared : Shared

-- A result, by the key of its segment; `executed` is `none` if the execution timed out.
pub record StreamingResult : Type 0 where
  pub executed : Option Segment
  pub key : String

-- The canonical segment after a merge.
unfoldable pub merged : Host → Segment → Segment → Segment
merged h s executed = elim (copy_writer_state_from h s executed) [ none ↦ s | some s' ↦ s' ]

unfoldable pub merge_streaming_result_locked : Host → Engine → Bool → StreamingResult → Engine
unfolding merged
merge_streaming_result_locked h e cancelled result = elim result.executed [
  | none ↦ e
  | some executed ↦ if cancelled then e else elim (lookup result.key e.segments) [
    | none ↦ e
    | some s ↦
        if s.type == vim && e.vim_repainted
        then e
        else record e { segments = insert result.key (merged h s executed) e.segments }
  ]
]

-- Whether `prepareStreamingSegments` takes the entry of a segment with a cache for its value.
unfoldable pub reuses : (String → ℤ) → Cache → SegmentRenderValue → ℤ → Bool
reuses seconds_of cache entry now =
    if is_empty cache.duration || not (is_pos (seconds_of cache.duration))
    then true
    else not (ltb_ℤ (of_seconds (seconds_of cache.duration)) (now -ℤ entry.rendered_at))

-- `prepareStreamingSegments`: the segments to execute, as the workers' clones, and the keys of those
-- that need not be.
pub record Prepared : Type 0 where
  pub engine : Engine
  pub to_execute : Dict String Segment
  pub completed : Dict String Bool

abbrev to_run : Prepared → String → Segment → Prepared
to_run p key s = record p { to_execute = p.to_execute ++ (key, clone s) ∷ [] }

abbrev cached_text : Prepared → String → String → Prepared
cached_text p key text = record p {
  engine = record (p.engine) { cached_values = insert key text p.engine.cached_values };
}

-- What becomes of a segment, which has its writer by then, by the entry that its cache has.
unfoldable pub prepare_found :
    Host → (String → ℤ) → ℤ → Prepared → String → Segment → Option SegmentRenderValue → Prepared
unfolding reuses apply_segment_cache_entry
prepare_found h seconds_of now p key s none = to_run p key s
prepare_found h seconds_of now p key s (some entry) =
    let stale = to_run (cached_text p key entry.text) key s in
    elim s.cache [
      | none ↦ stale
      | some cache ↦
          if reuses seconds_of cache entry now
          then record p {
            engine = record (p.engine) {
              segments = insert key (apply_segment_cache_entry h s entry) p.engine.segments;
            };
            completed = insert key true p.completed;
          }
          else stale
    ]

-- The engine when the segment has its writer and its key, and the cache was read.
abbrev pub looked_up : Host → ℤ → Engine → String → Segment → Engine
looked_up h now e key s = record e {
  segments = insert key s e.segments;
  segment_cache_keys = insert key (daemon_cache_key h s) e.segment_cache_keys;
  caches = (get_segment_cache h e.caches s now).1;
}

unfoldable pub prepare_segment : Host → (String → ℤ) → ℤ → Prepared → String → Segment → Prepared
unfolding prepare_found
prepare_segment h seconds_of now p key s =
    let s' = (map_segment_with_writer h s).0 in
    prepare_found h seconds_of now (record p { engine = looked_up h now p.engine key s' }) key s'
      (get_segment_cache h p.engine.caches s' now).0.0

unfoldable pub prepare_streaming_segments :
    Host → (String → ℤ) → ℤ → Prepared → Dict String Segment → Prepared
unfolding prepare_segment
prepare_streaming_segments h seconds_of now p [] = p
prepare_streaming_segments h seconds_of now p ((key, s) ∷ segments) =
    prepare_streaming_segments h seconds_of now (prepare_segment h seconds_of now p key s) segments

-- What `collectStreamingResultsUntil` receives until the cutoff.
pub data Collected : Type 0 where
  collects : StreamingResult → Bool → Collected
  ends_collection : Collected

unfoldable pub collect_streaming_results_until :
    Host → Engine × Dict String Bool → List Collected → Engine × Dict String Bool
unfolding merge_streaming_result_locked
collect_streaming_results_until h (e, completed) [] = (e, completed)
collect_streaming_results_until h (e, completed) (ends_collection ∷ events) = (e, completed)
collect_streaming_results_until h (e, completed) (collects result cancelled ∷ events) =
    collect_streaming_results_until h
      (merge_streaming_result_locked h e cancelled result, insert result.key true completed) events

-- The segments that are pending when the prompt is first drawn.
unfoldable pub mark_pending : Dict String Bool → Dict String Segment → Dict String Bool
mark_pending completed [] = []
mark_pending completed ((key, s) ∷ rest) =
    let pending = mark_pending completed rest in
    elim (lookup key completed) [ none ↦ insert key true pending | some b ↦ pending ]

-- `PrimaryStreaming` up to its first drawing, with whether it streams. `segments` is what the layout
-- gives the generation.
unfoldable pub primary_streaming :
    Host → (String → ℤ) → ℤ → Engine → Dict String Segment → List Collected → Engine × Bool
unfolding prepare_streaming_segments collect_streaming_results_until mark_pending
primary_streaming h seconds_of now e segments events =
    let fresh : Engine = record e {
      segments = segments;
      pending_segments = [];
      timed_out_segments = [];
      cached_values = [];
      segment_cache_keys = [];
      vim_repainted = false;
    } in
    let start : Prepared = record { engine = fresh; to_execute = []; completed = [] } in
    let p = prepare_streaming_segments h seconds_of now start segments in
    let (e', completed) = collect_streaming_results_until h (p.engine, p.completed) events in
    let pending = mark_pending completed p.to_execute in
    (record e' { pending_segments = pending }, ltb 0 (length pending))

-- The loop over the pending segments.
unfoldable pub mark_all : Dict String Bool → Dict String Bool → Dict String Bool
mark_all [] marks = marks
mark_all ((key, b) ∷ pending) marks = mark_all pending (insert key true marks)

unfoldable pub mark_pending_segments_timed_out : Engine → Bool → Engine × Bool
unfolding mark_all
mark_pending_segments_timed_out e cancelled =
    if cancelled || not (ltb 0 (length e.pending_segments))
    then (e, false)
    else (record e { timed_out_segments = mark_all e.pending_segments e.timed_out_segments }, true)

-- `PendingSegments` and `PendingSegmentCount`.
unfoldable pub pending_segments : Engine → Dict String Bool
pending_segments e = e.pending_segments

unfoldable pub pending_segment_count : Engine → ℕ
pending_segment_count e = length e.pending_segments
