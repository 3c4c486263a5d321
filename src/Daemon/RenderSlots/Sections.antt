-- ===== src/Daemon/RenderSlots/Sections.antt =====
-- The calls of src/daemon/daemon.go that overlap: each is a thread that goes through its sections, and
-- between two of them any section of another call may come. A section that looks a handle up leaves it
-- in a variable of its call, so that a later section of the call may be about any handle. The
-- pipeline's `Start`, `Complete` and `Release` are one section each.
use prompto.Prelude.{
  ℕ, ◌≡◌, sym, ◌∙◌, subst, inl, inr, false, List, [], ◌∷◌, Option, none, some, String, eqb, count_p,
  Bool-cases, Option-cases, string_comparable,
}
use prompto.Prelude.Dict.{lookup}
use prompto.Daemon.Registry.{Flags, Engine, EngineRegistry}
use prompto.Daemon.RenderPipeline.{
  HubOps, Pipeline, Rendering, complete, release_active, session_hub, start, remove_session, reset,
  snapshot,
}
use prompto.Daemon.RenderPipeline.Slots.{
  is_open, Counted, Retires, Retires-Counted, reloading-Retires, complete-Retires,
  release_active-Retires,
}
use prompto.Daemon.RenderPipeline.Admission.{Result, start-Started}
use prompto.Daemon.RenderSlots.{
  Daemon, RenderRequest, new_daemon, stop, switch_section, store_section, drop_section,
  release_section,
}
use prompto.Daemon.RenderSlots.Requests.{Opened, Accounts-Opened}
use prompto.Daemon.RenderSlots.Runs.{ap2, new_daemon-IsValid}

pub data Section : Type 0 where
  switches : RenderRequest → Section  -- `StartRender`, up to the end of its switch
  begins : Rendering → RenderRequest → Section  -- `pipeline.Start`
  completes : ℕ → Section  -- `Complete` of a handle
  releases : ℕ → Section  -- `Release` of a handle
  reads : String → Section  -- `pipeline.SessionHub`
  stores : String → Option ℕ → Section  -- the end of `StartRender`
  releases_if_current : String → ℕ → Section  -- the lock of `releaseActiveRenderIfCurrent`
  drops : String → Section  -- the lock of `completeRender`
  removes : String → Section  -- `pipeline.RemoveSession`
  drops_all : Section  -- the lock of `Reset`
  resets : Section  -- `pipeline.Reset`
  stops : Section

-- The gate counts the live handles, and no reload is under way.
pub record AreCounted {H : Type 0} (p : Pipeline H) : Type 0 where
  pub free : p.gate.reloading ≡ false
  pub counted : Counted p

module _ {H : Type 0} where
  Retires-AreCounted :
      (p : Pipeline H) (a : ℕ) (q : Pipeline H) → Retires p a q → AreCounted p → AreCounted q
  Retires-AreCounted p a q r v = record {
    free = reloading-Retires p a q r ∙ v.free;
    counted = Retires-Counted p a q r v.counted;
  }

  release_section_pipeline :
      (d : Daemon H) (id : String) (a : ℕ) → (release_section d id a).1.pipeline ≡ d.pipeline
  unfolding release_section
  release_section_pipeline d id a = elim (Option-cases (lookup id d.renders)) [
    | inl missing ↦ rw (missing, release_section)
    | inr (b, h) ↦ elim (Bool-cases (eqb b a)) [
      | inl same ↦ rw (h, release_section) (rw same)
      | inr other ↦ rw (h, release_section) (rw other)
    ]
  ]

  new-AreCounted : (registry : EngineRegistry) → AreCounted (new_daemon {H = H} registry).pipeline
  new-AreCounted registry =
      let v = new_daemon-IsValid {H = H} registry in record { free = v.free; counted = v.counted }

module _ {H : Type 0} (ops : HubOps H) (factory : Option Flags → Option Engine) where
  pub start-Opened :
      (p : Pipeline H) (rendering : Rendering) (request : RenderRequest)
      → p.gate.reloading ≡ false
      → (r : Result H) × (start ops factory p rendering request.session_id request.flags
            request.cancel
          ≡ some r)
        × Opened p r.0.1 r.1
  start-Opened p rendering request free =
      let (r, e, (m, gate, (x, fresh, made), accounts)) =
        start-Started ops factory p rendering request.session_id request.flags request.cancel
          free in
      (r, e, Accounts-Opened p m x gate fresh made r accounts)

  -- `Start` waits, and does nothing, while a reload is under way.
  unfoldable pub step : Daemon H → Section → Daemon H
  unfolding stop switch_section store_section drop_section release_section
  step d (switches request) = (switch_section ops d request).1
  step d (begins rendering request) =
      elim (start ops factory d.pipeline rendering request.session_id request.flags
        request.cancel) [ none ↦ d | some (r, p) ↦ record d { pipeline = p } ]
  step d (completes a) = record d { pipeline = complete d.pipeline a }
  step d (releases a) = record d { pipeline = release_active d.pipeline a }
  step d (reads id) = record d { pipeline = (session_hub ops d.pipeline id).1 }
  step d (stores id active) = store_section d id active
  step d (releases_if_current id a) = (release_section d id a).1
  step d (drops id) = (drop_section d id).1
  step d (removes id) = record d { pipeline = remove_session d.pipeline id }
  step d drops_all = record d { renders = [] }
  step d resets = record d { pipeline = reset d.pipeline }
  step d stops = stop d

  unfoldable pub run : Daemon H → List Section → Daemon H
  run d [] = d
  run d (s ∷ sections) = run (step d s) sections

  step-AreCounted :
      (d : Daemon H) (s : Section) → AreCounted d.pipeline → AreCounted (step d s).pipeline
  unfolding step session_hub remove_session reset
  step-AreCounted d (switches request) v = v
  step-AreCounted d (begins rendering request) v =
      let (r, e, opened) = start-Opened d.pipeline rendering request v.free in
      rw (e, step) (record { free = opened.reloading ∙ v.free; counted = opened.counted v.counted })
  step-AreCounted d (completes a) v =
      Retires-AreCounted d.pipeline a (complete d.pipeline a) (complete-Retires d.pipeline a) v
  step-AreCounted d (releases a) v =
      Retires-AreCounted d.pipeline a (release_active d.pipeline a)
        (release_active-Retires d.pipeline a) v
  step-AreCounted d (reads id) v = record { free = v.free; counted = v.counted }
  step-AreCounted d (stores id active) v = v
  step-AreCounted d (releases_if_current id a) v =
      subst AreCounted (sym (release_section_pipeline d id a)) v
  step-AreCounted d (drops id) v = v
  step-AreCounted d (removes id) v = record { free = v.free; counted = v.counted }
  step-AreCounted d drops_all v = v
  step-AreCounted d resets v = record { free = v.free; counted = v.counted }
  step-AreCounted d stops v = v

  run-AreCounted :
      (d : Daemon H) (sections : List Section)
      → AreCounted d.pipeline
      → AreCounted (run d sections).pipeline
  unfolding run
  run-AreCounted d [] v = v
  run-AreCounted d (s ∷ sections) v = run-AreCounted (step d s) sections (step-AreCounted d s v)

  -- Let any number of calls on a new daemon overlap, none of them a reload. Whichever sections have come,
  -- in whichever order and for whichever handles, the reload gate counts exactly the handles that have
  -- been neither completed nor released, and no reload is under way.
  pub run-new_daemon-snapshot :
      (registry : EngineRegistry) (sections : List Section)
      → let p = (run (new_daemon registry) sections).pipeline in
        snapshot p ≡ (count_p is_open p.renders, false)
  unfolding snapshot
  run-new_daemon-snapshot registry sections =
      let v = run-AreCounted (new_daemon registry) sections (new-AreCounted registry) in
      ap2 (λ n b. (n, b)) v.counted v.free
