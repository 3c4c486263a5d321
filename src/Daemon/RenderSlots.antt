-- ===== src/Daemon/RenderSlots.antt =====
-- src/daemon/daemon.go: the render that the daemon holds for each session, from its request to its
-- end. The process of the session and the idle timer are in Daemon/IdleTimer, the toggles in
-- Daemon/Toggles; both are left out of the calls here. A call holds the daemon's lock in sections and
-- calls the pipeline between them; here a section is a definition, and a call is its sections one after
-- the other. Sections is about sections of calls that overlap; Runs is about calls that do not, save
-- that the answer to a `NextUpdate` comes when other calls have been made.
pub mod Accounting
pub mod Sections
pub mod Overlap
pub mod Requests
pub mod Runs
pub mod Completion
use prompto.Prelude.{
  ℕ, Bool, true, false, not, ◌&&◌, ◌||◌, List, [], ◌∷◌, Option, none, some, String, if◌then◌else◌,
  ◌==◌, string_comparable, eqb, get_elem?, length,
}
use prompto.Prelude.Dict.{Dict, lookup, insert, delete}
use prompto.Daemon.Cancel.{CancelKind, repaint}
use prompto.Daemon.UpdateHub.{UpdateSnapshot}
use prompto.Daemon.Registry.{Flags, Engine, EngineRegistry}
use prompto.Daemon.RenderPipeline.{
  HubOps, ActiveRender, Pipeline, Rendering, PromptBundle, no_bundle, render_complete_payload,
  complete, release_active, hub_at, session_hub, base_sequence, start, new_render_pipeline,
  remove_session, reset,
}

pub record RenderRequest : Type 0 where
  pub session_id : String
  pub flags : Option Flags
  pub cancel : CancelKind

pub record RenderResponse : Type 0 where
  pub bundle : PromptBundle
  pub type : String
  pub sequence : ℕ

pub record Daemon (H : Type 0) : Type 0 where
  pub pipeline : Pipeline H
  pub renders : Dict String ℕ
  pub stopped : Bool

-- The session's entry after a render: its handle, if it has one.
abbrev pub store_render : Dict String ℕ → String → Option ℕ → Dict String ℕ
store_render renders id none = delete id renders
store_render renders id (some addr) = insert id addr renders

-- The entries after the switch.
abbrev pub without_retired : Dict String ℕ → String → Option ℕ → Dict String ℕ
without_retired renders id none = renders
without_retired renders id (some addr) = delete id renders

module _ {H : Type 0} where
  unfoldable pub new_daemon : EngineRegistry → Daemon H
  new_daemon registry = record {
    pipeline = new_render_pipeline registry;
    renders = [];
    stopped = false;
  }

  unfoldable pub session_count : Daemon H → ℕ
  session_count d = length d.renders

  -- A nil handle is completed and released to no effect.
  abbrev pub complete_some : Pipeline H → Option ℕ → Pipeline H
  complete_some p none = p
  complete_some p (some addr) = complete p addr

  abbrev pub release_some : Pipeline H → Option ℕ → Pipeline H
  release_some p none = p
  release_some p (some addr) = release_active p addr

  -- The section of `StartRender` that stores the handle.
  unfoldable pub store_section : Daemon H → String → Option ℕ → Daemon H
  store_section d id active = record d { renders = store_render d.renders id active }

  -- The section of `completeRender`, with the handle that the session had.
  unfoldable pub drop_section : Daemon H → String → Option ℕ × Daemon H
  drop_section d id = (lookup id d.renders, record d { renders = delete id d.renders })

  -- The section of `releaseActiveRenderIfCurrent`, with whether the handle was the session's.
  unfoldable pub release_section : Daemon H → String → ℕ → Bool × Daemon H
  release_section d id expected = elim (lookup id d.renders) [
    | none ↦ (false, d)
    | some current ↦
        if eqb current expected
        then (true, record d { renders = delete id d.renders })
        else (false, d)
  ]

  -- `releaseActiveRenderIfCurrent`.
  unfoldable pub release_active_render_if_current : Daemon H → String → ℕ → Daemon H
  unfolding release_section
  release_active_render_if_current d id expected =
      let (current, d') = release_section d id expected in
      if current then record d' { pipeline = complete d'.pipeline expected } else d'

  -- `completeRender`.
  unfoldable pub complete_render : Daemon H → String → Daemon H
  unfolding drop_section
  complete_render d id =
      let (active, d') = drop_section d id in
      record d' { pipeline = remove_session (complete_some d'.pipeline active) id }

  unfoldable pub complete_session : Daemon H → String → Daemon H
  unfolding complete_render
  complete_session d id = if d.stopped then d else complete_render d id

  complete_all : Pipeline H → Dict String ℕ → Pipeline H
  complete_all p [] = p
  complete_all p ((id, addr) ∷ entries) = complete_all (complete p addr) entries

  -- `Reset`.
  unfoldable pub reset_daemon : Daemon H → Daemon H
  unfolding complete_all
  reset_daemon d =
      if d.stopped
      then d
      else record d { renders = []; pipeline = reset (complete_all d.pipeline d.renders) }

  unfoldable pub stop : Daemon H → Daemon H
  stop d = record d { stopped = true }

  -- `NextUpdate` behind the stream's answer to the session's render: an update, or none, with
  -- whether the caller's context is done.
  unfoldable pub answer_update :
      Daemon H → String → ℕ → Option UpdateSnapshot → Bool → Option UpdateSnapshot × Daemon H
  answer_update d id active none context_done =
      (none, if context_done then d else release_active_render_if_current d id active)
  answer_update d id active (some update) context_done = (
    some update,
    if update.payload == render_complete_payload
        then release_active_render_if_current d id active
        else d,
  )

  -- `NextUpdate` up to its wait: the handle that it waits on. It goes on with `answer_update` at a later
  -- state of the daemon, when the handle may no longer be the session's.
  unfoldable pub begin_update : Daemon H → String → Option ℕ
  begin_update d id = if d.stopped then none else lookup id d.renders

module _ {H : Type 0} (ops : HubOps H) where
  -- `isCompletedRender`.
  unfoldable pub is_completed_render : Daemon H → ℕ → Bool
  is_completed_render d addr = elim (get_elem? d.pipeline.renders addr) [
    | none ↦ false
    | some active ↦ elim (ops.last (hub_at ops d.pipeline.hubs active.hub)) [
      | none ↦ false
      | some snapshot ↦
          (snapshot.payload == render_complete_payload)
          && (eqb snapshot.render_id 0 || eqb snapshot.render_id active.render.render_id)
    ]
  ]

  -- The switch of `StartRender`: the handle to complete, and the one to release afterwards.
  unfoldable pub retire_or_supersede : Daemon H → RenderRequest → Option ℕ × Option ℕ
  unfolding is_completed_render
  retire_or_supersede d request = elim (lookup request.session_id d.renders) [
    | none ↦ (none, none)
    | some existing ↦
        if is_completed_render d existing || not (repaint request.cancel)
        then (some existing, none)
        else (none, some existing)
  ]

  -- The section of the switch.
  unfoldable pub switch_section : Daemon H → RenderRequest → (Option ℕ × Option ℕ) × Daemon H
  unfolding retire_or_supersede
  switch_section d request =
      let (retire, superseded) = retire_or_supersede d request in
      (
        (retire, superseded),
        record d { renders = without_retired d.renders request.session_id retire },
      )

  module _ (factory : Option Flags → Option Engine) where
    -- `StartRender` behind the pipeline's `Start`.
    unfoldable pub started :
        Daemon H
        → RenderRequest
        → Option ℕ
        → (PromptBundle × Option ℕ) × Pipeline H
        → RenderResponse × Daemon H
    unfolding store_section
    started d request superseded ((rendered, active), p) =
        let p' = release_some p superseded in
        let (n, p'') = session_hub ops p' request.session_id in
        let here = ops.sequence (hub_at ops p''.hubs n) in
        (
          record {
            bundle = rendered;
            type = "initial";
            sequence = elim active [ none ↦ here | some addr ↦ base_sequence ops p'' (some addr) ];
          },
          store_section (record d { pipeline = p'' }) request.session_id active,
        )

    -- `StartRender` behind the switch; `none` while a reload holds the request back.
    abbrev pub answered :
        Daemon H
        → RenderRequest
        → Option ℕ
        → Option ((PromptBundle × Option ℕ) × Pipeline H)
        → Option (RenderResponse × Daemon H)
    answered d request superseded none = none
    answered d request superseded (some result) = some (started d request superseded result)

    unfoldable pub start_render :
        Daemon H → Rendering → RenderRequest → Option (RenderResponse × Daemon H)
    unfolding switch_section started
    start_render d rendering request =
        if d.stopped
        then some (record { bundle = no_bundle; type = "stopped"; sequence = 0 }, d)
        else (let ((retire, superseded), switched) = switch_section d request in
            let d' = record switched { pipeline = complete_some switched.pipeline retire } in
            answered d' request superseded (
              start ops factory d'.pipeline rendering request.session_id request.flags
                request.cancel))
