-- ===== src/Prompt/Streaming/Stale.antt =====
-- What the publisher of src/prompt/streaming.go leaves alone: the engine of a cancelled generation, and
-- a mode segment that a repaint has drawn.
use prompto.Prelude.{
  ◌≡◌, refl, sym, ap, ◌∙◌, inl, inr, Bool, true, false, not, ◌||◌, ◌&&◌, List, [], ◌∷◌, map, Option,
  none, some, String, if◌then◌else◌, ◌==◌, string_comparable, arith, Bool-cases, Option-cases,
  length, ltb,
}
use prompto.Prelude.Dict.{lookup, lookup-insert_ne}
use prompto.Config.Segment.{Segment, Host}
use prompto.Prompt.Streaming.{
  Engine, StreamingResult, vim, merge_streaming_result_locked, mark_pending_segments_timed_out,
  merged,
}
use prompto.Prompt.Streaming.Publish.{
  Event, receives, closes, expires, cancels, Publisher, publish_event, publishes, act, run,
}

-- A cancellation seen by the publisher.
abbrev pub is_cancelled : Event → Bool
is_cancelled (receives result cancelled) = cancelled
is_cancelled (closes cancelled) = cancelled
is_cancelled (expires cancelled) = cancelled
is_cancelled cancels = true

abbrev pub all_cancelled : List Event → Bool
all_cancelled [] = true
all_cancelled (e ∷ es) = is_cancelled e && all_cancelled es

-- The same engine and the same announcements.
abbrev pub Untouched : Publisher → Publisher → Type 0
Untouched p q = (q.engine ≡ p.engine) × (q.announced ≡ p.announced)

Untouched-if :
    (p : Publisher) (b : Bool) (x y : Publisher)
    → Untouched p x
    → Untouched p y
    → Untouched p (if b then x else y)
Untouched-if p true x y hx hy = hx
Untouched-if p false x y hx hy = hy

timed_out-cancelled : (e : Engine) → mark_pending_segments_timed_out e true ≡ (e, false)
unfolding mark_pending_segments_timed_out
timed_out-cancelled e = refl

publish_event-Untouched :
    (h : Host) (p : Publisher) (event : Event)
    → is_cancelled event ≡ true
    → Untouched p (publish_event h p event)
unfolding publish_event
publish_event-Untouched h p (receives result cancelled) c =
    rw c (Untouched-if p p.over p (record p { over = true }) (refl, refl) (refl, refl))
publish_event-Untouched h p (closes cancelled) c =
    rw c (Untouched-if p p.over p (record p { over = true }) (refl, refl) (refl, refl))
publish_event-Untouched h p (expires cancelled) c =
    rw (c, timed_out-cancelled p.engine)
      (Untouched-if p (p.over || not p.armed) p (record p { armed = false }) (refl, refl)
        (refl, refl))
publish_event-Untouched h p cancels c = (refl, refl)

-- A publisher whose context is cancelled by the time that it looks, whatever it still receives, leaves
-- the engine, which is that of the next generation then, and announces nothing.
pub run-cancelled-Untouched :
    (h : Host) (p : Publisher) (events : List Event)
    → all_cancelled events ≡ true
    → Untouched p (run h p (map publishes events))
unfolding run act
run-cancelled-Untouched h p [] c = (refl, refl)
run-cancelled-Untouched h p (event ∷ events) c =
    let (e, a) = publish_event-Untouched h p event (ground arith) in
    let (e', a') = run-cancelled-Untouched h (publish_event h p event) events (ground arith) in
    (e' ∙ e, a' ∙ a)

-- The mode segment of an engine, which a repaint has drawn.
abbrev pub Drawn : String → Segment → Engine → Type 0
Drawn k s e = (e.vim_repainted ≡ true) × (lookup k e.segments ≡ some s)

Drawn-if :
    (k : String) (s : Segment) (b : Bool) (x y : Publisher)
    → Drawn k s x.engine
    → Drawn k s y.engine
    → Drawn k s (if b then x else y).engine
Drawn-if k s true x y hx hy = hx
Drawn-if k s false x y hx hy = hy

module _ (h : Host) (k : String) (s : Segment) (mode : (s.type == vim) ≡ true) where
  clash : (t : Segment) (b : Bool) → some t ≡ some s → b ≡ true → (t.type == vim && b) ≡ false → ⊥
  clash t b same v new =
      absurd (true_ne (sym (ap (λ (o : Option Segment). type_test o b) same ∙ rw (v, mode)) ∙ new))
    where
      type_test : Option Segment → Bool → Bool
      type_test none c = c
      type_test (some u) c = u.type == vim && c

      true_ne : true ≡ false → ⊥
      true_ne e = cc

  merge-Drawn :
      (e : Engine) (result : StreamingResult)
      → Drawn k s e
      → Drawn k s (merge_streaming_result_locked h e false result)
  unfolding merge_streaming_result_locked
  merge-Drawn e result (v, l) = elim (Option-cases result.executed) [
    | inl lost ↦ rw (lost, merge_streaming_result_locked) (v, l)
    | inr (x, d) ↦ elim (Option-cases (lookup result.key e.segments)) [
      | inl missing ↦ rw (d, merge_streaming_result_locked) (rw missing (v, l))
      | inr (t, f) ↦ elim (Bool-cases (t.type == vim && e.vim_repainted)) [
        | inl old ↦ rw (d, merge_streaming_result_locked) (rw f (rw old (v, l)))
        | inr new ↦
            rw (d, merge_streaming_result_locked)
              (rw f (
                rw new (
                  v,
                  lookup-insert_ne result.key k (merged h t x) e.segments (λ same.
                        clash t e.vim_repainted (sym f ∙ ap (λ j. lookup j e.segments) same ∙ l) v
                          new)
                      ∙ l,
                )))
      ]
    ]
  ]

  timed_out-Drawn :
      (e : Engine) (cancelled : Bool)
      → Drawn k s e
      → Drawn k s (mark_pending_segments_timed_out e cancelled).0
  unfolding mark_pending_segments_timed_out
  timed_out-Drawn e cancelled d =
      either (cancelled || not (ltb 0 (length e.pending_segments))) _ _ d d
    where
      either :
          (b : Bool) (x y : Engine × Bool)
          → Drawn k s x.0
          → Drawn k s y.0
          → Drawn k s (if b then x else y).0
      either true x y hx hy = hx
      either false x y hx hy = hy

  publish_event-Drawn :
      (p : Publisher) (event : Event)
      → Drawn k s p.engine
      → Drawn k s (publish_event h p event).engine
  unfolding publish_event
  publish_event-Drawn p (receives result cancelled) d =
      Drawn-if k s p.over p _ d
        (Drawn-if k s cancelled (record p { over = true }) _ d (merge-Drawn p.engine result d))
  publish_event-Drawn p (closes cancelled) d = Drawn-if k s p.over p _ d d
  publish_event-Drawn p (expires cancelled) d =
      Drawn-if k s (p.over || not p.armed) p _ d (timed_out-Drawn p.engine cancelled d)
  publish_event-Drawn p cancels d = d

  -- Once a repaint has drawn the segment of the editor's mode, no result of the generation
  -- overwrites it, whatever else the publisher receives.
  pub run-Drawn :
      (p : Publisher) (events : List Event)
      → Drawn k s p.engine
      → Drawn k s (run h p (map publishes events)).engine
  unfolding run act
  run-Drawn p [] d = d
  run-Drawn p (event ∷ events) d =
      run-Drawn (publish_event h p event) events (publish_event-Drawn p event d)
