-- ===== src/Daemon/RenderPipeline.antt =====
-- src/daemon/render_pipeline.go: how a render takes its slot of the reload gate, its generation and
-- its hub, and gives the slot back.
-- An `ActiveRender` is an address into the list of those made, since callers share the pointer and
-- its `once`. The hubs are behind an interface, with one hub for each number that the session store
-- hands out. What the engine answers to a render is the argument `Rendering`; its segments, flags
-- and texts are not state here.
pub mod Slots
pub mod Admission
pub mod Deadline
pub mod Hubs
use prompto.Prelude.{
  ℕ, suc, ◌+◌, ◌-◌, Bool, true, false, not, ◌&&◌, ◌||◌, List, [], ◌∷◌, ◌++◌, Option, none, some,
  String, if◌then◌else◌, ◌==◌, string_comparable, eqb, length, get_elem?, set,
}
use prompto.Daemon.Cancel.{CancelKind, repaint}
use prompto.Daemon.UpdateHub.{UpdateSnapshot}
use prompto.Daemon.ReloadGate.{ReloadGate, release, new_reload_gate}
use prompto.Daemon.Registry.{
  Flags, Engine, EngineRegistry, RenderHandle, new_engine_registry, start_render,
  complete as complete_handle,
}
use prompto.Daemon.SessionStore.{
  PromptSessionStore, new_prompt_session_store, hub, remove, reset_all,
}

-- What the pipeline uses of a hub.
pub record HubOps (H : Type 0) : Type 0 where
  pub new_hub : H
  pub publish : H → String → ℕ → H
  pub sequence : H → ℕ
  pub last : H → Option UpdateSnapshot

pub record ActiveRender : Type 0 where
  pub render : RenderHandle
  pub hub : ℕ
  pub base_sequence : ℕ
  pub once_done : Bool

pub record Pipeline (H : Type 0) : Type 0 where
  pub gate : ReloadGate
  pub sessions : PromptSessionStore
  pub hubs : List H
  pub renders : List ActiveRender

-- The engine's answers: the text of the primary prompt, whether it was drawn with placeholders, the
-- pending segments after a repaint, and the text of the other prompts by their type.
pub record Rendering : Type 0 where
  pub primary : String
  pub streaming : Bool
  pub pending : ℕ
  pub text : String → String

-- `PromptBundle`, by what was asked of the renderer: the primary prompt, and whether the secondary
-- and the transient prompts come with it; or one prompt by its type.
pub data PromptBundle : Type 0 where
  no_bundle : PromptBundle
  bundle : String → Bool → Bool → PromptBundle
  extra : String → String → PromptBundle

abbrev pub render_complete_payload : String
render_complete_payload = "__prompto_render_complete__"

-- `defaultPromptBundleRenderer.Bundle`, with its options.
unfoldable pub make_bundle : Option Engine → String → Bool → Bool → PromptBundle
make_bundle none primary secondary transient = no_bundle
make_bundle (some engine) primary secondary transient = bundle primary secondary transient

abbrev known_type : String → Bool
known_type t =
    t == "debug"
    || t == "primary"
    || t == "secondary"
    || t == "transient"
    || t == "right"
    || t == "tooltip"
    || t == "valid"
    || t == "error"
    || t == "preview"

unfoldable pub render_prompt_by_type : Option Engine → Rendering → String → PromptBundle
render_prompt_by_type none rendering type = no_bundle
render_prompt_by_type (some engine) rendering type =
    if known_type type then extra type (rendering.text type) else no_bundle

unfoldable pub is_primary_request : Option Flags → Bool
is_primary_request none = true
is_primary_request (some flags) = flags.type == "" || flags.type == "primary"

abbrev pub type_of : Option Flags → String
type_of none = ""
type_of (some flags) = flags.type

-- `engine == nil || engine.Config == nil`.
abbrev pub lacks_config : Option Engine → Bool
lacks_config none = true
lacks_config (some engine) = not engine.has_config

-- A registry that is missing is never used: the constructor sets one.
abbrev pub registry_of : PromptSessionStore → EngineRegistry
registry_of sessions = elim sessions.registry [ none ↦ new_engine_registry | some r ↦ r ]

module _ {H : Type 0} where
  abbrev pub set_registry : Pipeline H → EngineRegistry → Pipeline H
  set_registry p r = record p { sessions = record (p.sessions) { registry = some r } }

  -- `NewRenderPipeline`, with no gate or renderer of the caller's.
  unfoldable pub new_render_pipeline : EngineRegistry → Pipeline H
  new_render_pipeline registry = record {
    gate = new_reload_gate;
    sessions = new_prompt_session_store (some registry);
    hubs = [];
    renders = [];
  }

  unfoldable pub snapshot : Pipeline H → ℕ × Bool
  snapshot p = (p.gate.active, p.gate.reloading)

  unfoldable pub remove_session : Pipeline H → String → Pipeline H
  remove_session p id = record p { sessions = remove p.sessions id }

  unfoldable pub reset : Pipeline H → Pipeline H
  reset p = record p { sessions = reset_all p.sessions }

  -- The body of `once.Do` marks the handle first.
  abbrev pub mark : Pipeline H → ℕ → ActiveRender → Pipeline H
  mark p addr active = record p {
    renders = set p.renders addr (record active { once_done = true });
  }

  abbrev pub release_slot : Pipeline H → Pipeline H
  release_slot p = record p { gate = release p.gate }

  -- `Complete`: once, end the generation and return the slot.
  unfoldable pub complete : Pipeline H → ℕ → Pipeline H
  complete p addr = elim (get_elem? p.renders addr) [
    | none ↦ p
    | some active ↦
        if active.once_done
        then p
        else release_slot (
            set_registry (mark p addr active)
              (complete_handle active.render (registry_of p.sessions)))
  ]

  -- `Release`: once, return the slot alone.
  unfoldable pub release_active : Pipeline H → ℕ → Pipeline H
  release_active p addr = elim (get_elem? p.renders addr) [
    | none ↦ p
    | some active ↦ if active.once_done then p else release_slot (mark p addr active)
  ]

module _ {H : Type 0} (ops : HubOps H) where
  -- A hub that the store has just made is new.
  abbrev pub with_hub : List H → ℕ → List H
  with_hub hubs n = if eqb n (length hubs) then hubs ++ ops.new_hub ∷ [] else hubs

  abbrev pub hub_at : List H → ℕ → H
  hub_at hubs n = elim (get_elem? hubs n) [ none ↦ ops.new_hub | some h ↦ h ]

  unfoldable pub session_hub : Pipeline H → String → ℕ × Pipeline H
  session_hub p id =
      let (n, sessions) = hub p.sessions id in
      (n, record p { sessions = sessions; hubs = with_hub p.hubs n })

  unfoldable pub base_sequence : Pipeline H → Option ℕ → ℕ
  base_sequence p none = 0
  base_sequence p (some addr) = elim (get_elem? p.renders addr) [
    | none ↦ 0
    | some active ↦ active.base_sequence
  ]

  -- The end of a generation is named by the empty text.
  unfoldable pub publish_segment : Pipeline H → ℕ → String → Pipeline H
  publish_segment p addr name = elim (get_elem? p.renders addr) [
    | none ↦ p
    | some active ↦
        let payload = if name == "" then render_complete_payload else name in
        record p {
          hubs =
              set p.hubs active.hub
                (ops.publish (hub_at p.hubs active.hub) payload active.render.render_id);
        }
  ]

  module _ (factory : Option Flags → Option Engine) where
    -- `newActiveRender` behind `StartRequest`.
    unfoldable pub admitted :
        Pipeline H → String → Option Flags → CancelKind → (ℕ × RenderHandle) × Pipeline H
    unfolding session_hub
    admitted p id flags kind =
        let (handle, registry) = start_render factory (registry_of p.sessions) id flags kind in
        let (n, p') = session_hub (set_registry p registry) id in
        let active : ActiveRender = record {
          render = handle;
          hub = n;
          base_sequence = ops.sequence (hub_at p'.hubs n);
          once_done = false;
        } in
        ((length p.renders, handle), record p' { renders = p'.renders ++ active ∷ [] })

    -- `newActiveRender`, or `none`: a reload holds the request back.
    unfoldable pub new_active_render :
        Pipeline H → String → Option Flags → CancelKind → Option ((ℕ × RenderHandle) × Pipeline H)
    unfolding admitted
    new_active_render p id flags kind =
        if p.gate.reloading
        then none
        else some (
            admitted (record p { gate = record (p.gate) { active = p.gate.active + 1 } }) id flags
              kind)

    -- `Start` behind `newActiveRender`.
    unfoldable pub start_admitted :
        Pipeline H
        → Rendering
        → ℕ
        → RenderHandle
        → Option Flags
        → CancelKind
        → (PromptBundle × Option ℕ) × Pipeline H
    unfolding complete publish_segment
    start_admitted p rendering addr handle flags kind =
        let engine = handle.engine in
        let final = publish_segment p addr "" in
        if lacks_config engine
        then (if repaint kind && not handle.reattached
            then ((make_bundle engine "" false false, none), complete p addr)
            else ((make_bundle engine "" false (is_primary_request flags), some addr), p))
        else if not (is_primary_request flags)
        then ((render_prompt_by_type engine rendering (type_of flags), some addr), final)
        else if repaint kind
        then (if not handle.reattached
            then ((make_bundle engine rendering.primary false true, none), complete p addr)
            else (
              (make_bundle engine rendering.primary false true, some addr),
              if eqb rendering.pending 0 then final else p,
            ))
        else if rendering.streaming
        then ((make_bundle engine rendering.primary false true, some addr), p)
        else ((make_bundle engine rendering.primary true true, none), complete final addr)

    unfoldable pub start :
        Pipeline H
        → Rendering
        → String
        → Option Flags
        → CancelKind
        → Option ((PromptBundle × Option ℕ) × Pipeline H)
    unfolding new_active_render start_admitted
    start p rendering id flags kind = elim (new_active_render p id flags kind) [
      | none ↦ none
      | some ((addr, handle), p') ↦ some (start_admitted p' rendering addr handle flags kind)
    ]
