-- ===== src/Prompt/Tests.antt =====
-- The theorems about segments, their texts and their caches at concrete inputs.
use prompto.Prelude.{◌≡◌, refl, true, false, [], if◌then◌else◌, ◌==◌, string_comparable}
use prompto.Prelude.Int.{pos}
use prompto.Prelude.Dict.{lookup}
use prompto.Cache.Duration.{seconds}
use prompto.Config.Segment.{Writer, Cache, Segment, Host, Shared, session}
use prompto.Config.Segment.Execution.{hides, execute_and_render, execute_and_render-hides}
use prompto.Prompt.CacheModel.{
  cache_key_for_segment, segment_cache_ttl, entry_of, store_segment_cache, get_segment_cache,
}
use prompto.Prompt.CacheModel.Lookup.{kept_entry, get_segment_cache-store_segment_cache}
use prompto.Prompt.Samples.{host, segment_of, caches, with_cache, no_times}

git_hidden : hides host (segment_of "git") ≡ true
unfolding prompto.Config.Segment.map_segment_with_writer
    prompto.Config.Segment.should_include_folder prompto.Config.Segment.is_toggled lookup
git_hidden = refl

-- A segment that the session has toggled off.
execute_and_render-hides_example :
    ((execute_and_render host (segment_of "git") 1 []).0 ≡ false)
    × ((execute_and_render host (segment_of "git") 1 []).1.enabled ≡ false)
    × ((execute_and_render host (segment_of "git") 1 []).2 ≡ [])
execute_and_render-hides_example =
    execute_and_render-hides host (segment_of "git") 1 [] refl git_hidden

get_segment_cache-store_segment_cache_example :
    (get_segment_cache host
      (store_segment_cache host
        (seconds no_times)
        caches
        (with_cache (segment_of "path") "")
        (pos 5)
        (pos 6))
      (with_cache (segment_of "path") "")
      (pos 9)).0.0
    ≡ (if (cache_key_for_segment host (with_cache (segment_of "path") "")).0
          == (cache_key_for_segment host (with_cache (segment_of "path") "")).0
        then kept_entry caches
            (cache_key_for_segment host (with_cache (segment_of "path") "")).1
            (entry_of host (with_cache (segment_of "path") "") (pos 5))
            (segment_cache_ttl (seconds no_times) (with_cache (segment_of "path") ""))
            (pos 6)
            (pos 9)
        else (get_segment_cache host caches (with_cache (segment_of "path") "") (pos 9)).0.0)
get_segment_cache-store_segment_cache_example =
    get_segment_cache-store_segment_cache host (seconds no_times) caches
      (with_cache (segment_of "path") "") (with_cache (segment_of "path") "") (pos 5) (pos 6)
      (pos 9) refl refl refl
