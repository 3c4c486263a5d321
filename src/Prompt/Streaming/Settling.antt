-- ===== src/Prompt/Streaming/Settling.antt =====
-- That the prompt of src/prompt/streaming.go ends without placeholders, unless it is cancelled.
use prompto.Prelude.{
  ◌≡◌, refl, ap, ◌⊎◌, inl, inr, Bool, true, false, not, ◌||◌, ◌&&◌, List, [], ◌∷◌, ◌++◌, none,
  String, if◌then◌else◌, ◌==◌, string_comparable, arith, Bool-cases, length, ltb,
}
use prompto.Prelude.Int.{ℤ}
use prompto.Prelude.Dict.{Dict, lookup}
use prompto.Config.Segment.{Segment, Host}
use prompto.Prompt.Streaming.{Engine, Collected, mark_pending_segments_timed_out}
use prompto.Prompt.Streaming.Publish.{
  receives, closes, expires, cancels, Publisher, publish_event, Action, publishes, repaints, act,
  run,
}
use prompto.Prompt.Streaming.Marks.{
  IsMarked, settled-marks, start_publisher, streamed, run-streamed-IsMarked,
}
use prompto.Prompt.Streaming.SameMarks.{primary_repaint-SameMarks}

-- Neither a cancellation nor the end of the results.
abbrev pub is_quiet : Action → Bool
is_quiet (publishes (receives result cancelled)) = not cancelled
is_quiet (publishes (closes cancelled)) = false
is_quiet (publishes (expires cancelled)) = not cancelled
is_quiet (publishes cancels) = false
is_quiet (repaints now segments) = true

abbrev pub all_quiet : List Action → Bool
all_quiet [] = true
all_quiet (a ∷ rest) = is_quiet a && all_quiet rest

abbrev pub is_result_of : String → Action → Bool
is_result_of k (publishes (receives result cancelled)) = result.key == k
is_result_of k (publishes (closes cancelled)) = false
is_result_of k (publishes (expires cancelled)) = false
is_result_of k (publishes cancels) = false
is_result_of k (repaints now segments) = false

-- Whether the result of a segment is among the actions.
abbrev pub received : String → List Action → Bool
received k [] = false
received k (a ∷ rest) = is_result_of k a || received k rest

-- An action that a publisher takes while it runs.
abbrev Goes : Publisher → Action → Publisher → Type 0
Goes p a q =
    (q.over ≡ false)
    × ((k : String)
        → lookup k q.engine.pending_segments
          ≡ (if is_result_of k a then none else lookup k p.engine.pending_segments))

timed_out_pending :
    (e : Engine) (cancelled : Bool)
    → (mark_pending_segments_timed_out e cancelled).0.pending_segments ≡ e.pending_segments
unfolding mark_pending_segments_timed_out
timed_out_pending e cancelled =
    pending_if (cancelled || not (ltb 0 (length e.pending_segments))) _ _ refl refl
  where
    pending_if :
        (b : Bool) (x y : Engine × Bool)
        → x.0.pending_segments ≡ e.pending_segments
        → y.0.pending_segments ≡ e.pending_segments
        → (if b then x else y).0.pending_segments ≡ e.pending_segments
    pending_if true x y hx hy = hx
    pending_if false x y hx hy = hy

act-Goes :
    (h : Host) (p : Publisher) (a : Action)
    → p.over ≡ false
    → is_quiet a ≡ true
    → Goes p a (act h p a)
unfolding act publish_event
act-Goes h p (publishes (receives result true)) on q = cc
act-Goes h p (publishes (receives result false)) on q =
    rw on (refl, λ k. (settled-marks h p.engine result k).0)
act-Goes h p (publishes (closes cancelled)) on q = cc
act-Goes h p (publishes cancels) on q = cc
act-Goes h p (publishes (expires cancelled)) on q = elim (Bool-cases p.armed) [
  | inl armed ↦ rw (on, armed) (refl, λ k. ap (lookup k) (timed_out_pending p.engine cancelled))
  | inr fired ↦ rw (on, fired) (refl, λ k. refl)
]
act-Goes h p (repaints now segments) on q =
    (on, λ k. ap (lookup k) (primary_repaint-SameMarks h now segments p.engine).0)

run-Goes :
    (h : Host) (p : Publisher) (rest : List Action)
    → p.over ≡ false
    → all_quiet rest ≡ true
    → ((run h p rest).over ≡ false)
      × ((k : String)
          → lookup k (run h p rest).engine.pending_segments
            ≡ (if received k rest then none else lookup k p.engine.pending_segments))
unfolding run
run-Goes h p [] on q = (on, λ k. refl)
run-Goes h p (a ∷ rest) on q =
    let (on', step) = act-Goes h p a on (ground arith) in
    let (on2, left) = run-Goes h (act h p a) rest on' (ground arith) in
    (on2, λ k. ground (arith, left k, step k))

run-append_closes :
    (h : Host) (p : Publisher) (rest : List Action) (a : Action)
    → run h p (rest ++ a ∷ []) ≡ act h (run h p rest) a
unfolding run
run-append_closes h p [] a = refl
run-append_closes h p (b ∷ rest) a = run-append_closes h (act h p b) rest a

closes_lem :
    (h : Host) (p : Publisher)
    → p.over ≡ false
    → act h p (publishes (closes false)) ≡ record p { over = true; announced = "" ∷ p.announced }
unfolding act publish_event
closes_lem h p on = rw on

-- What is left when the results have all been taken.
abbrev pub Settles : Publisher → Publisher → Type 0
Settles p q =
    (q.over ≡ true)
    × (q.announced ≡ "" ∷ p.announced)
    × ((k : String)
        → (lookup k q.engine.pending_segments ≡ none)
          × (lookup k q.engine.timed_out_segments ≡ none))

unmarked :
    (e : Engine) (k : String)
    → IsMarked e
    → lookup k e.pending_segments ≡ none
    → lookup k e.timed_out_segments ≡ none
unmarked e k m none_pending = ground (arith, m k)

module _ (h : Host) (seconds_of : String → ℤ) (now : ℤ) (e : Engine)
    (segments : Dict String Segment) (events : List Collected) (armed : Bool) where
  abbrev pub started : Publisher
  started = start_publisher (streamed h seconds_of now e segments events) armed

  -- Let a streaming prompt be followed by the result of every segment that is pending, with repaints
  -- and the deadline at any place between, and by the end of the results, and let it not be
  -- cancelled. Then no segment is left pending or drawn as timed out, the last announcement is
  -- that of completion, and the publisher has returned.
  pub run-started-Settles :
      (rest : List Action)
      → all_quiet rest ≡ true
      → ((k : String)
          → (lookup k started.engine.pending_segments ≡ none) ⊎ (received k rest ≡ true))
      → Settles (run h started rest) (run h started (rest ++ publishes (closes false) ∷ []))
  run-started-Settles rest quiet each =
      let q = run h started rest in
      let (on, left) = run-Goes h started rest refl quiet in
      let m = run-streamed-IsMarked h seconds_of now e segments events armed rest in
      let none_pending : (k : String) → lookup k q.engine.pending_segments ≡ none =
        λ k. ground (arith, left k, each k) in
      rw (run-append_closes h started rest (publishes (closes false)), closes_lem h q on)
        (refl, refl, λ k. (none_pending k, unmarked q.engine k m (none_pending k)))
