-- ===== src/Daemon/RenderTests.antt =====
-- The theorems about the daemon's renders at concrete inputs.
use prompto.Prelude.{
  count_p, not, ◌||◌, if◌then◌else◌, ◌⊎◌, refl, true, false, [], ◌∷◌, ℕ, some, none, arith, String,
  Option, ◌≡◌, List,
}
use prompto.Daemon.Cancel.{cancel_hard, cancel_soft, repaint}
use prompto.Daemon.UpdateHub.{new_session_update_hub, State}
use prompto.Daemon.Registry.{Flags, Engine, RenderHandle, new_engine_registry}
use prompto.Daemon.RenderPipeline.{
  snapshot, Pipeline, ActiveRender, Rendering, render_complete_payload, start, no_bundle,
  new_render_pipeline,
}
use prompto.Daemon.RenderPipeline.Hubs.{update_hub_ops, update_hub-HubLaws}
use prompto.Daemon.UpdateHub.Runs.{new_state, new-IsValid}
use prompto.Daemon.RenderSlots.{
  retire_or_supersede, session_count, Daemon, RenderRequest, new_daemon,
}
use prompto.Daemon.RenderSlots.Runs.{
  Call, requests, completes, answers, resets, stops, run, run-new_daemon-IsValid,
}
use prompto.Daemon.RenderPipeline.Slots.{is_open}
use prompto.Daemon.RenderPipeline.Admission.{Result}
use prompto.Daemon.RenderSlots.Sections
use prompto.Daemon.RenderSlots.Sections.{Section, run-new_daemon-snapshot}
use prompto.Daemon.RenderSlots.Overlap.{overlapping}
use prompto.Daemon.RenderSlots.Accounting.{IsValid}
use prompto.Daemon.RenderSlots.Completion.{ends_generation, announce, publish_segment-retires}

abbrev factory : Option Flags → Option Engine
factory flags = some (record { id = 1; layout_source = none; has_config = true })

abbrev drawn : Rendering
drawn = record { primary = "~ ..."; streaming = true; pending = 1; text = λ type. type }

abbrev request_of : String → RenderRequest
request_of id = record { session_id = id; flags = none; cancel = cancel_hard }

abbrev repaint_of : String → RenderRequest
repaint_of id = record { session_id = id; flags = none; cancel = cancel_soft }

abbrev or_else : {A : Type 0} → A → Option A → A
or_else a none = a
or_else a (some b) = b

-- A session is repainted, an answer comes for the handle that it had before, and it ends.
abbrev calls : List Call
calls =
    requests drawn (request_of "1")
    ∷ requests drawn (repaint_of "1")
    ∷ answers "1" 0 none false
    ∷ completes "1"
    ∷ []

run-new_daemon-IsValid_example :
    IsValid (run update_hub_ops factory (new_daemon new_engine_registry) calls)
run-new_daemon-IsValid_example =
    run-new_daemon-IsValid update_hub_ops factory new_engine_registry calls

none_left : session_count (run update_hub_ops factory (new_daemon new_engine_registry) calls) ≡ 0
unfolding prompto.Daemon.SessionStore.hub prompto.Daemon.Cancel.repaint
    prompto.Daemon.Registry.cancel_active prompto.Daemon.Registry.cancel_render_if
    prompto.Daemon.Registry.complete prompto.Daemon.Registry.engine_serves_config
    prompto.Daemon.Registry.get_or_create_engine prompto.Daemon.Registry.remove_session
    prompto.Daemon.Registry.reset prompto.Daemon.ReloadGate.release
    prompto.Daemon.RenderPipeline.admitted prompto.Daemon.RenderPipeline.base_sequence
    prompto.Daemon.RenderPipeline.complete prompto.Daemon.RenderPipeline.make_bundle
    prompto.Daemon.RenderPipeline.new_active_render prompto.Daemon.RenderPipeline.publish_segment
    prompto.Daemon.RenderPipeline.release_active prompto.Daemon.RenderPipeline.remove_session
    prompto.Daemon.RenderPipeline.render_prompt_by_type prompto.Daemon.RenderPipeline.reset
    prompto.Daemon.RenderPipeline.session_hub prompto.Daemon.RenderPipeline.start_admitted
    prompto.Daemon.RenderSlots.answer_update prompto.Daemon.RenderSlots.complete_render
    prompto.Daemon.RenderSlots.is_completed_render
    prompto.Daemon.RenderSlots.release_active_render_if_current
    prompto.Daemon.RenderSlots.reset_daemon prompto.Daemon.RenderSlots.retire_or_supersede
    prompto.Daemon.RenderSlots.started prompto.Daemon.RenderSlots.stop
    prompto.Daemon.SessionStore.remove prompto.Daemon.SessionStore.reset_all
    prompto.Prelude.Dict.delete session_count run prompto.Daemon.RenderSlots.Runs.step
    prompto.Daemon.RenderSlots.complete_session prompto.Daemon.RenderSlots.start_render new_daemon
    prompto.Daemon.RenderPipeline.start prompto.Prelude.Dict.lookup
    prompto.Daemon.RenderPipeline.new_render_pipeline prompto.Daemon.ReloadGate.new_reload_gate
    prompto.Daemon.Registry.start_render prompto.Daemon.SessionStore.new_prompt_session_store
    new_engine_registry prompto.Daemon.RenderPipeline.is_primary_request prompto.Prelude.Dict.insert
    prompto.Daemon.UpdateHub.last new_session_update_hub
none_left = refl

-- Two requests for one session that overlap, with what the pipeline answers.
abbrev nothing : Result State
nothing = ((no_bundle, none), new_render_pipeline new_engine_registry)

abbrev first_answer : Result State
first_answer = or_else nothing (
    start update_hub_ops factory (new_render_pipeline new_engine_registry) drawn "1" none
      cancel_hard)

abbrev second_answer : Result State
second_answer =
    or_else nothing (start update_hub_ops factory first_answer.1 drawn "1" none cancel_hard)

abbrev overlap : List Section
overlap = overlapping drawn drawn (request_of "1") (request_of "1")

run-new_daemon-snapshot_example :
    snapshot (Sections.run update_hub_ops factory (new_daemon new_engine_registry) overlap).pipeline
    ≡ (
      count_p is_open
          (Sections.run update_hub_ops factory
            (new_daemon new_engine_registry)
            overlap).pipeline.renders,
      false,
    )
run-new_daemon-snapshot_example =
    run-new_daemon-snapshot update_hub_ops factory new_engine_registry overlap

abbrev first_handle : RenderHandle
first_handle = record {
  session_id = "1";
  engine = none;
  context = 0;
  render_id = 1;
  reattached = false;
}

abbrev one_render : Daemon State
one_render = record {
  pipeline = record {
    gate = record { active = 1; reloading = false };
    sessions = record { registry = none; hubs = ("1", 0) ∷ []; next_hub = 1 };
    hubs = new_state ∷ [];
    renders = record { render = first_handle; hub = 0; base_sequence = 0; once_done = false } ∷ [];
  };
  renders = ("1", 0) ∷ [];
  stopped = false;
}

publish_segment-retires_example :
    retire_or_supersede update_hub_ops
      (announce update_hub_ops one_render 0
        (record { render = first_handle; hub = 0; base_sequence = 0; once_done = false })
        "")
      (repaint_of "1")
    ≡ (if ends_generation "" || not (repaint cancel_soft) then (some 0, none) else (none, some 0))
unfolding new_session_update_hub prompto.Prelude.Dict.lookup prompto.Daemon.UpdateHub.sequence
publish_segment-retires_example =
    publish_segment-retires update_hub_ops one_render 0
      (record { render = first_handle; hub = 0; base_sequence = 0; once_done = false })
      update_hub-HubLaws new_state refl refl new-IsValid (omega arith) "" (repaint_of "1") refl
