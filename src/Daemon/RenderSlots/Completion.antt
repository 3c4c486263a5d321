-- ===== src/Daemon/RenderSlots/Completion.antt =====
-- How src/daemon/daemon.go tells from the session's hub that a render is over.
use prompto.Prelude.{
  ℕ, ◌+◌, ◌^◌, ◌<◌, ◌≡◌, refl, ap, ◌∙◌, Bool, true, false, not, ◌||◌, ◌&&◌, List, none, some,
  String, arith, eqb, eqb_iff, get_elem?, set, get_elem?-set_self, get_elem?-lt-length,
  if◌then◌else◌, ◌==◌, string_comparable,
}
use prompto.Prelude.Dict.{lookup, eq_self}
use prompto.Daemon.Cancel.{repaint}
use prompto.Daemon.UpdateHub.{UpdateSnapshot}
use prompto.Daemon.RenderPipeline.{
  HubOps, ActiveRender, render_complete_payload, publish_segment, hub_at,
}
use prompto.Daemon.RenderPipeline.Hubs.{HubLaws}
use prompto.Daemon.RenderSlots.{Daemon, RenderRequest, is_completed_render, retire_or_supersede}

-- The name of a segment that ends a generation.
abbrev pub ends_generation : String → Bool
ends_generation name = name == "" || name == render_complete_payload

module _ {H : Type 0} (ops : HubOps H) (d : Daemon H) (a : ℕ) (active : ActiveRender) where
  abbrev pub announce : String → Daemon H
  announce name = record d { pipeline = publish_segment ops d.pipeline a name }

  publish_segment_at :
      (name : String)
      → get_elem? d.pipeline.renders a ≡ some active
      → publish_segment ops d.pipeline a name ≡ record (d.pipeline) {
        hubs = set d.pipeline.hubs active.hub (
            ops.publish
              (hub_at ops d.pipeline.hubs active.hub)
              (if name == "" then render_complete_payload else name)
              active.render.render_id);
      }
  unfolding publish_segment
  publish_segment_at name h = rw (h, publish_segment)

  -- The test, on the update that the hub has last.
  is_completed_render_at :
      (d' : Daemon H) (s : UpdateSnapshot)
      → get_elem? d'.pipeline.renders a ≡ some active
      → ops.last (hub_at ops d'.pipeline.hubs active.hub) ≡ some s
      → is_completed_render ops d' a ≡ (
          (s.payload == render_complete_payload)
          && (eqb s.render_id 0 || eqb s.render_id active.render.render_id))
  unfolding is_completed_render
  is_completed_render_at d' s e f = rw (e, is_completed_render) (rw f)

  hub_at-some :
      (hubs : List H) (h : H) → get_elem? hubs active.hub ≡ some h → hub_at ops hubs active.hub ≡ h
  hub_at-some hubs h e = rw (e, hub_at)

  module _ {IsGood : H → Type 0} (laws : HubLaws ops IsGood) (h : H)
      (there : get_elem? d.pipeline.renders a ≡ some active)
      (hub_there : get_elem? d.pipeline.hubs active.hub ≡ some h) (good : IsGood h)
      (room : ops.sequence h + 1 < 2 ^ 63) (name : String) where
    announced_last :
        ops.last (hub_at ops (announce name).pipeline.hubs active.hub)
        ≡ some (record {
          payload = if name == "" then render_complete_payload else name;
          render_id = active.render.render_id;
          sequence = ops.sequence h + 1;
        })
    announced_last =
        let payload = if name == "" then render_complete_payload else name in
        let h' = ops.publish h payload active.render.render_id in
        ap (λ p. ops.last (hub_at ops p.hubs active.hub)) (publish_segment_at name there)
        ∙ ap
            (λ k. ops.last (
              hub_at ops
                (set d.pipeline.hubs active.hub (ops.publish k payload active.render.render_id))
                active.hub))
            (hub_at-some d.pipeline.hubs h hub_there)
        ∙ ap ops.last (
            hub_at-some (set d.pipeline.hubs active.hub h') h' (
              get_elem?-set_self d.pipeline.hubs active.hub h'
                (get_elem?-lt-length d.pipeline.hubs active.hub hub_there)))
        ∙ (laws.publish_good h payload active.render.render_id good room).2

    announce-completed : is_completed_render ops (announce name) a ≡ ends_generation name
    announce-completed =
        is_completed_render_at (announce name) _
          (ap (λ p. get_elem? p.renders a) (publish_segment_at name there) ∙ there) announced_last
        ∙ decided (name == "") refl (active.render.render_id)
      where
        decided :
            (e : Bool)
            → (name == "") ≡ e
            → (id : ℕ)
            → (((if e then render_complete_payload else name) == render_complete_payload)
                && (eqb id 0 || eqb id id))
              ≡ (e || name == render_complete_payload)
        decided true q id = ground (arith, eqb_iff id id, eq_self render_complete_payload)
        decided false q id = ground (arith, eqb_iff id id)

    retire_at :
        (d' : Daemon H) (request : RenderRequest)
        → lookup request.session_id d'.renders ≡ some a
        → retire_or_supersede ops d' request ≡ (
            if is_completed_render ops d' a || not (repaint request.cancel)
            then (some a, none)
            else (none, some a))
    unfolding retire_or_supersede
    retire_at d' request e = rw (e, retire_or_supersede)

    -- Let a session's render have a hub that can number one more update, and publish a segment. The
    -- switch of the next request for the session then picks the render's handle to be retired if the
    -- segment was the announcement of the end or the request is a hard one, and otherwise picks it to
    -- be superseded. It never picks both.
    pub publish_segment-retires :
        (request : RenderRequest)
        → lookup request.session_id d.renders ≡ some a
        → retire_or_supersede ops (announce name) request ≡ (
            if ends_generation name || not (repaint request.cancel)
            then (some a, none)
            else (none, some a))
    publish_segment-retires request e =
        retire_at (announce name) request e
        ∙ ap (λ b. if b || not (repaint request.cancel) then (some a, none) else (none, some a))
            announce-completed
