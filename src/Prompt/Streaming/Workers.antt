-- ===== src/Prompt/Streaming/Workers.antt =====
-- src/prompt/streaming.go and src/prompt/shared_provider.go: the workers that run the segments of a
-- streaming prompt, and the one execution that the segments of a type share. A worker's turn is one
-- step; an execution that is given up is still run to its end, as its goroutine may be, and whether
-- its writer was registered before it was marked is a part of how it ends.
use prompto.Prelude.{
  ◌≡◌, inl, inr, Bool, true, false, not, ◌||◌, ◌&&◌, Option, none, some, String, if◌then◌else◌,
  string_comparable, Option-cases,
}
use prompto.Prelude.Dict.{Dict, lookup, insert, lookup-insert_self}
use prompto.Config.Segment.{Segment, Host, Shared, mark_abandoned, map_segment_with_writer}
use prompto.Config.Segment.Execution.{execute}
use prompto.Prompt.Streaming.{StreamingResult, merged}

-- What `executeSegmentWithContext` waits for. The execution has begun by then: the flag tells whether
-- it was past the last look at the mark when the segment was marked as abandoned.
pub data Finish : Type 0 where
  finishes : Finish
  is_cancelled : (past : Bool) → Finish
  times_out : (past : Bool) → Finish

-- What the goroutine leaves that was given up.
unfoldable pub given_up : Host → Segment → Shared → Bool → Segment × Shared
given_up h s shared past =
    let (late, late_shared) = execute h s shared in
    let marked = execute h (mark_abandoned s) shared in
    if past then (mark_abandoned late, late_shared) else marked

-- Whether it completed and whether it did so cleanly, and the segment and the shared writers when its
-- goroutine has ended.
unfoldable pub execute_segment_with_context :
    Host → Segment → Shared → Finish → (Bool × Bool) × Segment × Shared
unfolding given_up
execute_segment_with_context h s shared finishes =
    let (s', shared') = execute h s shared in ((true, true), s', shared')
execute_segment_with_context h s shared (is_cancelled past) =
    let (s', shared') = given_up h s shared past in ((false, false), s', shared')
execute_segment_with_context h s shared (times_out past) =
    let (s', shared') = given_up h s shared past in ((true, false), s', shared')

-- The results of the shared providers that have run, by type; `none` for an error.
pub record Workers : Type 0 where
  pub shared_providers : Dict String (Option Segment)
  pub shared : Shared

-- `getOrCreateSharedProvider` and `Get`: the first call executes the source.
unfoldable pub get_shared : Host → Workers → String → Segment → Finish → Option Segment × Workers
unfolding execute_segment_with_context
get_shared h w type source outcome = elim (lookup type w.shared_providers) [
  | some result ↦ (result, w)
  | none ↦
      let ((completed, clean), s, shared) =
        execute_segment_with_context h source w.shared outcome in
      let result = if completed && clean then some s else none in
      (result, record { shared_providers = insert type result w.shared_providers; shared = shared })
]

-- The worker's clone with what the provider gave.
abbrev pub with_source : Host → Segment → Option Segment → Segment
with_source h working none = working
with_source h working (some source) = merged h working source

-- `executeStreamingSegment`, with whether the context is cancelled before and after.
unfoldable pub execute_streaming_segment :
    Host
    → Workers
    → Bool
    → Bool
    → Bool
    → String
    → Segment
    → Segment
    → Finish
    → Option StreamingResult × Workers
unfolding get_shared execute_segment_with_context
execute_streaming_segment h w has_factory before after key working source outcome =
    let (mapped, known) = map_segment_with_writer h working in
    let (result, w') = get_shared h w working.type source outcome in
    let ((completed, clean), s, shared) = execute_segment_with_context h working w.shared outcome in
    if before
    then (none, w)
    else if has_factory
    then (let executed = if known then with_source h mapped result else mapped in
        (
          if after then none else some (record { executed = some executed; key = key }),
          if known then w' else w,
        ))
    else (
      if not completed || after
          then none
          else some (record { executed = if clean then some s else none; key = key }),
      record w { shared = shared },
    )

get_shared_first :
    (h : Host) (w : Workers) (type : String) (source : Segment) (outcome : Finish)
    → lookup type (get_shared h w type source outcome).1.shared_providers
      ≡ some (get_shared h w type source outcome).0
unfolding get_shared
get_shared_first h w type source outcome = elim (Option-cases (lookup type w.shared_providers)) [
  | inl missing ↦ rw (missing, get_shared) (lookup-insert_self type _ w.shared_providers)
  | inr (result, e) ↦ rw (e, get_shared) e
]

get_shared_again :
    (h : Host) (w : Workers) (type : String) (source : Segment) (outcome : Finish)
    (result : Option Segment)
    → lookup type w.shared_providers ≡ some result
    → get_shared h w type source outcome ≡ (result, w)
unfolding get_shared
get_shared_again h w type source outcome result e = rw (e, get_shared)

-- Once a worker has asked for the shared execution of a type, however that ended, each later
-- worker of the generation that asks for that type gets the same result, and executes nothing: the
-- providers and the shared writers stay as they are.
pub get_shared-get_shared :
    (h : Host) (w : Workers) (type : String) (source source' : Segment) (outcome outcome' : Finish)
    → get_shared h (get_shared h w type source outcome).1 type source' outcome'
      ≡ get_shared h w type source outcome
get_shared-get_shared h w type source source' outcome outcome' =
    get_shared_again h (get_shared h w type source outcome).1 type source' outcome'
      (get_shared h w type source outcome).0 (get_shared_first h w type source outcome)
