-- ===== src/Prompt/StreamingTests.antt =====
-- The theorems about streaming prompts at concrete inputs.
use prompto.Prelude.{
  sym, Bool-cases, subst, ℕ, ◌≡◌, refl, ◌⊎◌, inl, inr, Bool, true, false, not, ◌||◌, List, [], ◌∷◌,
  ◌++◌, map, Option, none, some, String, if◌then◌else◌, ◌==◌, string_comparable,
}
use prompto.Prelude.Int.{pos}
use prompto.Prelude.Dict.{Dict, lookup, is_some}
use prompto.Cache.Duration.{seconds}
use prompto.Template.Choice.{resolve}
use prompto.Config.Segment.{
  name_of, map_segment_with_writer, clone, Writer, Cache, Segment, Host, Shared, session,
}
use prompto.Config.Segment.Execution.{hides, execute_and_render, execute_and_render-hides}
use prompto.Prompt.CacheModel.{Caches, get_segment_cache, apply_segment_cache_before_execute}
use prompto.Prompt.Streaming.{
  prepare_segment, Engine, StreamingResult, Prepared, Collected, ends_collection, prepare_found,
  vim,
}
use prompto.Prompt.Streaming.Publish.{receives, closes, cancels, publishes, run}
use prompto.Prompt.Streaming.Marks.{IsMarked, start_publisher, streamed, run-streamed-IsMarked}
use prompto.Prompt.Streaming.Settling.{received, Settles, run-started-Settles}
use prompto.Prompt.Streaming.Stale.{Untouched, Drawn, run-cancelled-Untouched, run-Drawn}
use prompto.Prompt.Streaming.Caching.{prepare_segment-before_execute}
use prompto.Prompt.Streaming.Blocks.{
  Written, Piece, draws, write_rendered, write_segment, write_block_segments,
}
use prompto.Prompt.Streaming.Blocks.Redraw.{Kept, write_block_segments-Kept}
use prompto.Prompt.Streaming.Blocks.Baking.{LooksLike, write_segment-LooksLike}
use prompto.Prompt.Samples.{
  host, segment_of, caches, with_cache, no_times, engine, one_segment, late_result, actions, late,
  path_pending, drawn_vim, vim_result, prepared, enabled_path, first_drawing, baked_path,
}

run-streamed-IsMarked_example :
    IsMarked
      (run host
        (start_publisher
          (streamed host (seconds no_times) (pos 5) engine one_segment (ends_collection ∷ []))
          true)
        actions).engine
run-streamed-IsMarked_example =
    run-streamed-IsMarked host (seconds no_times) (pos 5) engine one_segment (ends_collection ∷ [])
      true actions

late_pending : late.engine.pending_segments ≡ path_pending
unfolding prompto.Prompt.Streaming.primary_streaming get_segment_cache
    prompto.Config.Segment.map_segment_with_writer lookup prompto.Prelude.Dict.insert
late_pending = refl

each_received : (k : String) → (lookup k path_pending ≡ none) ⊎ (received k actions ≡ true)
unfolding lookup
each_received k = elim (Bool-cases ("primary:0:0:path" == k)) [
  | inl same ↦ inr (rw same)
  | inr other ↦ inl (rw other)
]

run-started-Settles_example :
    Settles (run host late actions) (run host late (actions ++ publishes (closes false) ∷ []))
run-started-Settles_example =
    run-started-Settles host (seconds no_times) (pos 5) engine one_segment (ends_collection ∷ [])
      true actions refl
      (λ k.
        subst (λ m. (lookup k m ≡ none) ⊎ (received k actions ≡ true)) (sym late_pending)
          (each_received k))

run-cancelled-Untouched_example :
    Untouched late (run host late (map publishes (receives late_result true ∷ cancels ∷ [])))
run-cancelled-Untouched_example =
    run-cancelled-Untouched host late (receives late_result true ∷ cancels ∷ []) refl

run-Drawn_example :
    Drawn "primary:0:1:vim"
      (segment_of "vim")
      (run host (start_publisher drawn_vim false) (map publishes (vim_result ∷ []))).engine
unfolding lookup
run-Drawn_example =
    run-Drawn host "primary:0:1:vim" (segment_of "vim") refl (start_publisher drawn_vim false)
      (vim_result ∷ []) (refl, refl)

-- An engine whose cache has the segment.
abbrev path_cached : Caches
path_cached = record caches {
  session_cache =
      (
        name_of host (segment_of "path"),
        record { rendered_at = pos 1; text = "~"; foreground = "blue"; background = "" },
      )
      ∷ [];
}

prepare_segment-before_execute_example :
    is_some (
      lookup "k"
        (prepare_segment host
          (seconds no_times)
          (pos 9)
          (record prepared { engine = record (prepared.engine) { caches = path_cached } })
          "k"
          (with_cache (segment_of "path") "")).completed)
    ≡ (apply_segment_cache_before_execute host
        (seconds no_times)
        path_cached
        (map_segment_with_writer host (with_cache (segment_of "path") "")).0
        (pos 9)).0
unfolding lookup
prepare_segment-before_execute_example =
    prepare_segment-before_execute no_times host (pos 9)
      (record prepared { engine = record (prepared.engine) { caches = path_cached } }) "k"
      (with_cache (segment_of "path") "") refl refl

write_block_segments-Kept_example :
    Kept host
      (seconds no_times)
      drawn_vim
      none
      false
      false
      (pos 9)
      drawn_vim.segments
      (write_block_segments host
        (seconds no_times)
        drawn_vim
        none
        false
        false
        (pos 9)
        drawn_vim.segments
        0
        []
        caches).0.0
write_block_segments-Kept_example =
    write_block_segments-Kept host (seconds no_times) drawn_vim none false false (pos 9)
      drawn_vim.segments 0 [] caches

first_drawn : first_drawing.piece ≡ draws baked_path
unfolding write_rendered prompto.Config.Segment.Execution.render resolve
    prompto.Config.Segment.resolve_foreground prompto.Config.Segment.resolve_background
first_drawn = refl

write_segment-LooksLike_example :
    (t : Segment) × ((write_segment host
        (seconds no_times)
        engine
        none
        false
        false
        (pos 10)
        "k"
        first_drawing.segment
        0
        []
        caches).piece
      ≡ draws t)
    × LooksLike host baked_path t
unfolding prompto.Prompt.Streaming.Blocks.is_shown prompto.Config.Segment.text_of lookup
write_segment-LooksLike_example =
    write_segment-LooksLike host (seconds no_times) engine engine none false false false (pos 9)
      (pos 10) "k" enabled_path baked_path 0 0 [] [] caches caches first_drawn refl refl
