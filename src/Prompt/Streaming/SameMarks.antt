-- ===== src/Prompt/Streaming/SameMarks.antt =====
-- What of src/prompt/streaming.go changes neither the pending segments nor those that are timed out.
use prompto.Prelude.{
  ◌≡◌, refl, ◌∙◌, inl, inr, Bool, true, false, ◌&&◌, List, [], ◌∷◌, Option, none, some, String,
  if◌then◌else◌, ◌==◌, string_comparable, Bool-cases, Option-cases,
}
use prompto.Prelude.Int.{ℤ}
use prompto.Prelude.Dict.{Dict, lookup, insert}
use prompto.Config.Segment.{map_segment_with_writer, Cache, Segment, Host}
use prompto.Prompt.CacheModel.{get_segment_cache}
use prompto.Prompt.Streaming.{
  looked_up, ends_collection, reuses, prepare_segment, collects, prepare_streaming_segments,
  prepare_found, collect_streaming_results_until, Prepared, SegmentRenderValue, Engine,
  StreamingResult, Collected, vim, merge_streaming_result_locked,
}
use prompto.Prompt.Streaming.Publish.{
  or_else, repaint_entry, repaint_found, repaint_segment, repaint_segments, primary_repaint,
}

-- Two engines with the same segments pending and timed out.
abbrev pub SameMarks : Engine → Engine → Type 0
SameMarks e e' =
    (e'.pending_segments ≡ e.pending_segments) × (e'.timed_out_segments ≡ e.timed_out_segments)

pub merge-SameMarks :
    (h : Host) (e : Engine) (cancelled : Bool) (result : StreamingResult)
    → SameMarks e (merge_streaming_result_locked h e cancelled result)
unfolding merge_streaming_result_locked
merge-SameMarks h e cancelled result = elim (Option-cases result.executed) [
  | inl lost ↦ rw (lost, merge_streaming_result_locked) (refl, refl)
  | inr (x, d) ↦ elim (Bool-cases cancelled) [
    | inl over ↦ rw (d, merge_streaming_result_locked) (rw over (refl, refl))
    | inr on ↦ elim (Option-cases (lookup result.key e.segments)) [
      | inl missing ↦ rw (d, merge_streaming_result_locked) (rw on (rw missing (refl, refl)))
      | inr (s, f) ↦ elim (Bool-cases (s.type == vim && e.vim_repainted)) [
        | inl old ↦ rw (d, merge_streaming_result_locked) (rw on (rw f (rw old (refl, refl))))
        | inr new ↦ rw (d, merge_streaming_result_locked) (rw on (rw f (rw new (refl, refl))))
      ]
    ]
  ]
]

SameMarks-if :
    (e : Engine) (b : Bool) (x y : Engine)
    → SameMarks e x
    → SameMarks e y
    → SameMarks e (if b then x else y)
SameMarks-if e true x y hx hy = hx
SameMarks-if e false x y hx hy = hy

repaint_found-SameMarks :
    (h : Host) (e : Engine) (key : String) (s : Segment) (found : Option SegmentRenderValue)
    → SameMarks e (repaint_found h e key s found)
repaint_found-SameMarks h e key s none = (refl, refl)
repaint_found-SameMarks h e key s (some entry) = by_pending (lookup key e.pending_segments)
  where
    by_pending : (o : Option Bool) → SameMarks e (repaint_entry h e key s entry o)
    by_pending none = (refl, refl)
    by_pending (some b) = (refl, refl)

repaint_segment-SameMarks :
    (h : Host) (now : ℤ) (e : Engine) (key : String) (s : Segment)
    → SameMarks e (repaint_segment h now e key s)
unfolding repaint_segment
repaint_segment-SameMarks h now e key s =
    SameMarks-if e (s.type == vim) _ _ (refl, refl) (repaint_found-SameMarks h _ key _ _)

pub repaint_segments-SameMarks :
    (h : Host) (now : ℤ) (e : Engine) (segments : Dict String Segment)
    → SameMarks e (repaint_segments h now e segments)
unfolding repaint_segments
repaint_segments-SameMarks h now e [] = (refl, refl)
repaint_segments-SameMarks h now e ((key, s) ∷ rest) =
    let (p, t) = repaint_segment-SameMarks h now e key s in
    let (p', t') = repaint_segments-SameMarks h now (repaint_segment h now e key s) rest in
    (p' ∙ p, t' ∙ t)

pub primary_repaint-SameMarks :
    (h : Host) (now : ℤ) (segments : Dict String Segment) (e : Engine)
    → SameMarks e (primary_repaint h now segments e)
unfolding primary_repaint
primary_repaint-SameMarks h now segments e =
    let blocks = or_else e.segments segments in
    repaint_segments-SameMarks h now (record e { segments = blocks }) blocks

-- Preparing and collecting leave both sets alone.
SameMarks-prepared :
    (e : Engine) (b : Bool) (x y : Prepared)
    → SameMarks e x.engine
    → SameMarks e y.engine
    → SameMarks e (if b then x else y).engine
SameMarks-prepared e true x y hx hy = hx
SameMarks-prepared e false x y hx hy = hy

prepare_found-SameMarks :
    (h : Host) (seconds_of : String → ℤ) (now : ℤ) (p : Prepared) (key : String) (s : Segment)
    (found : Option SegmentRenderValue)
    → SameMarks p.engine (prepare_found h seconds_of now p key s found).engine
unfolding prepare_found
prepare_found-SameMarks h seconds_of now p key s none = (refl, refl)
prepare_found-SameMarks h seconds_of now p key s (some entry) = by_cache s.cache
  where
    by_cache :
        (o : Option Cache)
        → SameMarks p.engine
            (prepare_found h seconds_of now p key (record s { cache = o }) (some entry)).engine
    by_cache none = (refl, refl)
    by_cache (some c) =
        SameMarks-prepared p.engine (reuses seconds_of c entry now) _ _ (refl, refl) (refl, refl)

pub prepare-SameMarks :
    (h : Host) (seconds_of : String → ℤ) (now : ℤ) (p : Prepared) (segments : Dict String Segment)
    → SameMarks p.engine (prepare_streaming_segments h seconds_of now p segments).engine
unfolding prepare_streaming_segments prepare_segment
prepare-SameMarks h seconds_of now p [] = (refl, refl)
prepare-SameMarks h seconds_of now p ((key, s) ∷ segments) =
    let p' = prepare_segment h seconds_of now p key s in
    let s' = (map_segment_with_writer h s).0 in
    let (a, b) =
      prepare_found-SameMarks h seconds_of now
        (record p { engine = looked_up h now p.engine key s' }) key s'
        (get_segment_cache h p.engine.caches s' now).0.0 in
    let (c, d) = prepare-SameMarks h seconds_of now p' segments in (c ∙ a, d ∙ b)

pub collect-SameMarks :
    (h : Host) (e : Engine) (completed : Dict String Bool) (events : List Collected)
    → SameMarks e (collect_streaming_results_until h (e, completed) events).0
unfolding collect_streaming_results_until
collect-SameMarks h e completed [] = (refl, refl)
collect-SameMarks h e completed (ends_collection ∷ events) = (refl, refl)
collect-SameMarks h e completed (collects result cancelled ∷ events) =
    let (a, b) = merge-SameMarks h e cancelled result in
    let (c, d) =
      collect-SameMarks h (merge_streaming_result_locked h e cancelled result)
        (insert result.key true completed) events in
    (c ∙ a, d ∙ b)
