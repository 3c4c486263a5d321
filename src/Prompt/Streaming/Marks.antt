-- ===== src/Prompt/Streaming/Marks.antt =====
-- Which segments src/prompt/streaming.go draws as pending and as timed out.
use prompto.Prelude.{
  length, ltb, ◌≡◌, refl, ap, ◌∙◌, ◌⊎◌, inl, inr, Bool, true, false, not, ◌||◌, List, [], ◌∷◌, none,
  some, String, if◌then◌else◌, ◌==◌, string_comparable, arith, Bool-cases,
}
use text.Mathlib.TextEquality.{eq_iff}
use prompto.Prelude.Int.{ℤ}
use prompto.Prelude.Dict.{Dict, lookup, insert, delete, is_some, lookup-insert, lookup-delete}
use prompto.Config.Segment.{Segment, Host}
use prompto.Prompt.Streaming.{
  prepare_streaming_segments, Prepared, Engine, StreamingResult, Collected,
  mark_pending_segments_timed_out, mark_all, primary_streaming,
}
use prompto.Prompt.Streaming.Publish.{
  Event, receives, closes, expires, cancels, Publisher, settled, publish_event, primary_repaint,
  Action, publishes, repaints, act, run,
}
use prompto.Prompt.Streaming.SameMarks.{
  SameMarks, merge-SameMarks, primary_repaint-SameMarks, prepare-SameMarks, collect-SameMarks,
}

lookup-mark_all :
    (k : String) (pending marks : Dict String Bool)
    → lookup k (mark_all pending marks)
      ≡ (if is_some (lookup k pending) then some true else lookup k marks)
unfolding mark_all lookup
lookup-mark_all k [] marks = refl
lookup-mark_all k ((key, b) ∷ pending) marks = ground (
  arith,
  lookup-mark_all k pending (insert key true marks),
  lookup-insert key k true marks,
  eq_iff key k,
)

-- Only a pending segment is drawn as timed out.
abbrev pub IsMarked : Engine → Type 0
IsMarked e =
    (k : String)
    → (lookup k e.timed_out_segments ≡ none) ⊎ (is_some (lookup k e.pending_segments) ≡ true)

SameMarks-IsMarked : (e e' : Engine) → SameMarks e e' → IsMarked e → IsMarked e'
SameMarks-IsMarked e e' (p, t) m k = rw (p, t) (m k)

-- A result leaves its segment neither pending nor timed out, and the others as they are.
pub settled-marks :
    (h : Host) (e : Engine) (result : StreamingResult) (k : String)
    → (lookup k (settled h e result).pending_segments
        ≡ (if result.key == k then none else lookup k e.pending_segments))
      × (lookup k (settled h e result).timed_out_segments
          ≡ (if result.key == k then none else lookup k e.timed_out_segments))
settled-marks h e result k =
    let (p, t) = merge-SameMarks h e false result in
    (
      ap (λ m. lookup k (delete result.key m)) p ∙ lookup-delete result.key k e.pending_segments,
      ap (λ m. lookup k (delete result.key m)) t ∙ lookup-delete result.key k e.timed_out_segments,
    )

settled-IsMarked :
    (h : Host) (e : Engine) (result : StreamingResult) → IsMarked e → IsMarked (settled h e result)
settled-IsMarked h e result m k = elim (Bool-cases (result.key == k)) [
  | inl same ↦ inl ((settled-marks h e result k).1 ∙ rw same)
  | inr other ↦ rw ((settled-marks h e result k).0, (settled-marks h e result k).1) (rw other (m k))
]

timed_out-IsMarked :
    (e : Engine) (cancelled : Bool)
    → IsMarked e
    → IsMarked (mark_pending_segments_timed_out e cancelled).0
unfolding mark_pending_segments_timed_out
timed_out-IsMarked e cancelled m k =
    elim (Bool-cases (cancelled || not (ltb 0 (length e.pending_segments)))) [
      | inl nothing ↦ rw nothing (m k)
      | inr some_late ↦
          rw some_late
            (ground (arith, m k, lookup-mark_all k e.pending_segments e.timed_out_segments))
    ]

IsMarked-if :
    (b : Bool) (x y : Publisher)
    → IsMarked x.engine
    → IsMarked y.engine
    → IsMarked (if b then x else y).engine
IsMarked-if true x y hx hy = hx
IsMarked-if false x y hx hy = hy

publish_event-IsMarked :
    (h : Host) (p : Publisher) (event : Event)
    → IsMarked p.engine
    → IsMarked (publish_event h p event).engine
unfolding publish_event
publish_event-IsMarked h p (receives result cancelled) m =
    IsMarked-if p.over p _ m
      (IsMarked-if cancelled (record p { over = true }) _ m (settled-IsMarked h p.engine result m))
publish_event-IsMarked h p (closes cancelled) m = IsMarked-if p.over p _ m m
publish_event-IsMarked h p (expires cancelled) m =
    IsMarked-if (p.over || not p.armed) p _ m (timed_out-IsMarked p.engine cancelled m)
publish_event-IsMarked h p cancels m = m

act-IsMarked :
    (h : Host) (p : Publisher) (action : Action)
    → IsMarked p.engine
    → IsMarked (act h p action).engine
unfolding act
act-IsMarked h p (publishes event) m = publish_event-IsMarked h p event m
act-IsMarked h p (repaints now segments) m =
    SameMarks-IsMarked p.engine (primary_repaint h now segments p.engine)
      (primary_repaint-SameMarks h now segments p.engine) m

run-IsMarked :
    (h : Host) (p : Publisher) (actions : List Action)
    → IsMarked p.engine
    → IsMarked (run h p actions).engine
unfolding run
run-IsMarked h p [] m = m
run-IsMarked h p (action ∷ actions) m =
    run-IsMarked h (act h p action) actions (act-IsMarked h p action m)

-- The publisher that a streaming prompt starts.
abbrev pub start_publisher : Engine → Bool → Publisher
start_publisher e armed = record { engine = e; armed = armed; over = false; announced = [] }

module _ (h : Host) (seconds_of : String → ℤ) (now : ℤ) (e : Engine)
    (segments : Dict String Segment) (events : List Collected) where
  abbrev pub streamed : Engine
  streamed = (primary_streaming h seconds_of now e segments events).0

  streamed-IsMarked : IsMarked streamed
  unfolding primary_streaming lookup
  streamed-IsMarked k =
      let fresh : Engine = record e {
        segments = segments;
        pending_segments = [];
        timed_out_segments = [];
        cached_values = [];
        segment_cache_keys = [];
        vim_repainted = false;
      } in
      let start : Prepared = record { engine = fresh; to_execute = []; completed = [] } in
      let p = prepare_streaming_segments h seconds_of now start segments in
      inl (
        ap (lookup k) (
          (collect-SameMarks h p.engine p.completed events).1
          ∙ (prepare-SameMarks h seconds_of now start segments).1))

  -- Whatever follows the first drawing of a prompt, results, repaints, the deadline and a cancellation
  -- in any order: a segment is drawn as timed out only while it is pending.
  pub run-streamed-IsMarked :
      (armed : Bool) (actions : List Action)
      → IsMarked (run h (start_publisher streamed armed) actions).engine
  run-streamed-IsMarked armed actions =
      run-IsMarked h (start_publisher streamed armed) actions streamed-IsMarked
