-- ===== src/Daemon/RenderSlots/Runs.antt =====
-- Calls of the render entry points of src/daemon/daemon.go that come one after the other keep the slots in
-- order, with answers to `NextUpdate` at any time.
use prompto.Prelude.{
  suc, ℕ, ◌≡◌, refl, ◌∙◌, inl, inr, Bool, true, false, List, [], ◌∷◌, Option, none, some, arith,
  eqb_iff, count_p, Bool-cases, if◌then◌else◌, ◌==◌, string_comparable,
}
use prompto.Prelude.Dict.{Dict, lookup}
use prompto.Daemon.UpdateHub.{UpdateSnapshot}
use prompto.Daemon.ReloadGate.{new_reload_gate}
use prompto.Daemon.Registry.{Flags, Engine, EngineRegistry}
use prompto.Daemon.RenderPipeline.{
  snapshot, render_complete_payload, HubOps, ActiveRender, Pipeline, Rendering, complete, reset,
  new_render_pipeline,
}
use prompto.Daemon.RenderPipeline.Slots.{
  is_live, is_open, Counted, complete-Retires, Retires-Counted, is_live-Retires, reloading-Retires,
}
use prompto.Daemon.RenderSlots.{
  session_count, length, answer_update, String, Daemon, RenderRequest, new_daemon,
  release_active_render_if_current, complete_render, complete_session, complete_all, reset_daemon,
  stop, start_render,
}
use prompto.Daemon.RenderSlots.Accounting.{
  Owned, IsValid, complete_render-IsValid, release_if_current-IsValid,
}
use prompto.Daemon.RenderSlots.Requests.{start_render-IsValid}

-- A call: a request with what the engine answers, the end of a session, an answer to a `NextUpdate` of
-- the session that waits on a handle, with whether the caller's context is done, a reset and a stop. The
-- handle is any number: it need not be the session's any more.
pub data Call : Type 0 where
  requests : Rendering → RenderRequest → Call
  completes : String → Call
  answers : String → ℕ → Option UpdateSnapshot → Bool → Call
  resets : Call
  stops : Call

pub ap2 : {A B C : Type 0} (f : A → B → C) {a a' : A} {b b' : B} → a ≡ a' → b ≡ b' → f a b ≡ f a' b'
ap2 f e g = cc

pub count_p-dead :
    (rs : List ActiveRender) → ((b : ℕ) → is_live rs b ≡ false) → count_p is_open rs ≡ 0
count_p-dead [] h = refl
count_p-dead (r ∷ rs) h = ground (arith, h 0, count_p-dead rs (λ b. h (suc b)))

unowned :
    (m : Dict String ℕ) (rs : List ActiveRender)
    → length m ≡ 0
    → Owned m rs
    → (b : ℕ) → is_live rs b ≡ false
unfolding lookup
unowned [] rs h o b = elim (o b) [ inl dead ↦ dead | inr (id, e) ↦ cc ]
unowned (x ∷ m) rs h o b = absurd (omega arith)

module _ {H : Type 0} where
  -- Retiring every entry of a map.
  complete_all_dead :
      (p : Pipeline H) (m : Dict String ℕ) (b : ℕ)
      → is_live p.renders b ≡ false
      → is_live (complete_all p m).renders b ≡ false
  unfolding complete_all
  complete_all_dead p [] b h = h
  complete_all_dead p ((id, a) ∷ m) b h =
      complete_all_dead (complete p a) m b
        (is_live-Retires p a (complete p a) b (complete-Retires p a) ∙ ground arith)

  complete_all_owned :
      (p : Pipeline H) (m : Dict String ℕ) (id : String) (b : ℕ)
      → lookup id m ≡ some b
      → is_live (complete_all p m).renders b ≡ false
  unfolding complete_all lookup
  complete_all_owned p [] id b h = cc
  complete_all_owned p ((j, a) ∷ m) id b h = elim (Bool-cases (j == id)) [
    | inl same ↦
        complete_all_dead (complete p a) m b (
          is_live-Retires p a (complete p a) b (complete-Retires p a) ∙ ground (arith, eqb_iff a b))
    | inr other ↦ complete_all_owned (complete p a) m id b (ground arith)
  ]

  complete_all-Counted :
      (p : Pipeline H) (m : Dict String ℕ) → Counted p → Counted (complete_all p m)
  unfolding complete_all
  complete_all-Counted p [] c = c
  complete_all-Counted p ((id, a) ∷ m) c =
      complete_all-Counted (complete p a) m
        (Retires-Counted p a (complete p a) (complete-Retires p a) c)

  complete_all_reloading :
      (p : Pipeline H) (m : Dict String ℕ) → (complete_all p m).gate.reloading ≡ p.gate.reloading
  unfolding complete_all
  complete_all_reloading p [] = refl
  complete_all_reloading p ((id, a) ∷ m) =
      complete_all_reloading (complete p a) m
      ∙ reloading-Retires p a (complete p a) (complete-Retires p a)

  all_dropped-IsValid :
      (d : Daemon H)
      → IsValid d
      → IsValid (record d { renders = []; pipeline = reset (complete_all d.pipeline d.renders) })
  unfolding reset
  all_dropped-IsValid d v = record {
    free = complete_all_reloading d.pipeline d.renders ∙ v.free;
    counted = complete_all-Counted d.pipeline d.renders v.counted;
    owned = λ b. elim (v.owned b) [
      | inl dead ↦ inl (complete_all_dead d.pipeline d.renders b dead)
      | inr (id, h) ↦ inl (complete_all_owned d.pipeline d.renders id b h)
    ];
  }

  IsValid-if : (b : Bool) (d e : Daemon H) → IsValid d → IsValid e → IsValid (if b then d else e)
  IsValid-if true d e hd he = hd
  IsValid-if false d e hd he = he

  IsValid-if_pair :
      {O : Type 0} (b : Bool) (x y : O × Daemon H)
      → IsValid x.1
      → IsValid y.1
      → IsValid (if b then x else y).1
  IsValid-if_pair true x y hx hy = hx
  IsValid-if_pair false x y hx hy = hy

  complete_session-IsValid :
      (d : Daemon H) (id : String) → IsValid d → IsValid (complete_session d id)
  unfolding complete_session
  complete_session-IsValid d id v =
      IsValid-if d.stopped d (complete_render d id) v (complete_render-IsValid d id v)

  reset_daemon-IsValid : (d : Daemon H) → IsValid d → IsValid (reset_daemon d)
  unfolding reset_daemon
  reset_daemon-IsValid d v = IsValid-if d.stopped _ _ v (all_dropped-IsValid d v)

  stop-IsValid : (d : Daemon H) → IsValid d → IsValid (stop d)
  unfolding stop
  stop-IsValid d v = record { free = v.free; counted = v.counted; owned = v.owned }

  released-IsValid :
      (d : Daemon H) (id : String) (b : Bool) (a : ℕ)
      → IsValid d
      → IsValid (if b then release_active_render_if_current d id a else d)
  released-IsValid d id b a v =
      IsValid-if b (release_active_render_if_current d id a) d (release_if_current-IsValid d id a v)
        v

  answer_update-IsValid :
      (d : Daemon H) (id : String) (a : ℕ) (answer : Option UpdateSnapshot) (done : Bool)
      → IsValid d
      → IsValid (answer_update d id a answer done).1
  unfolding answer_update
  answer_update-IsValid d id a none done v =
      IsValid-if done d (release_active_render_if_current d id a) v
        (release_if_current-IsValid d id a v)
  answer_update-IsValid d id a (some update) done v =
      released-IsValid d id (update.payload == render_complete_payload) a v

  pub new_daemon-IsValid : (registry : EngineRegistry) → IsValid (new_daemon {H = H} registry)
  unfolding new_daemon new_render_pipeline new_reload_gate
  new_daemon-IsValid registry = record { free = refl; counted = refl; owned = λ b. inl refl }

module _ {H : Type 0} (ops : HubOps H) (factory : Option Flags → Option Engine) where
  -- A request that a reload holds back leaves the daemon as it is.
  unfoldable pub step : Daemon H → Call → Daemon H
  step d (requests rendering request) = elim (start_render ops factory d rendering request) [
    | none ↦ d
    | some (r, d') ↦ d'
  ]
  step d (completes id) = complete_session d id
  step d (answers id active answer done) = (answer_update d id active answer done).1
  step d resets = reset_daemon d
  step d stops = stop d

  unfoldable pub run : Daemon H → List Call → Daemon H
  run d [] = d
  run d (c ∷ calls) = run (step d c) calls

  step-IsValid : (d : Daemon H) (c : Call) → IsValid d → IsValid (step d c)
  unfolding step
  step-IsValid d (requests rendering request) v =
      let (r, d', e, w) = start_render-IsValid ops factory d rendering request v in rw (e, step) w
  step-IsValid d (completes id) v = complete_session-IsValid d id v
  step-IsValid d (answers id active answer done) v = answer_update-IsValid d id active answer done v
  step-IsValid d resets v = reset_daemon-IsValid d v
  step-IsValid d stops v = stop-IsValid d v

  run-IsValid : (d : Daemon H) (calls : List Call) → IsValid d → IsValid (run d calls)
  unfolding run
  run-IsValid d [] v = v
  run-IsValid d (c ∷ calls) v = run-IsValid (step d c) calls (step-IsValid d c v)

  -- Let the calls on a new daemon not overlap, save that an answer to a `NextUpdate` may come at any
  -- time and for any handle, the session's or not. After every sequence of them the reload gate counts
  -- one active request for each handle that has neither been completed nor released, and each of these
  -- is the handle of a session. No call reloads, and no reload is under way.
  pub run-new_daemon-IsValid :
      (registry : EngineRegistry) (calls : List Call) → IsValid (run (new_daemon registry) calls)
  run-new_daemon-IsValid registry calls =
      run-IsValid (new_daemon registry) calls (new_daemon-IsValid registry)

  -- Let the calls on a new daemon not overlap, save that an answer to a `NextUpdate` may come at any
  -- time and for any handle, the session's or not, and let none of them reload. If no session has a
  -- render after them, then no request is active at the reload gate.
  run-new_daemon-drained :
      (registry : EngineRegistry) (calls : List Call)
      → session_count (run (new_daemon registry) calls) ≡ 0
      → snapshot (run (new_daemon registry) calls).pipeline ≡ (0, false)
  unfolding session_count snapshot
  run-new_daemon-drained registry calls none_left =
      let d = run (new_daemon registry) calls in
      let v = run-new_daemon-IsValid registry calls in
      ap2 (λ n b. (n, b))
        (v.counted
          ∙ count_p-dead d.pipeline.renders
              (unowned d.renders d.pipeline.renders none_left v.owned))
        v.free
