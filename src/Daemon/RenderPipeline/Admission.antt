-- ===== src/Daemon/RenderPipeline/Admission.antt =====
-- What `Start` of src/daemon/render_pipeline.go does to the slots.
use prompto.Prelude.{
  ℕ, ◌+◌, ◌≡◌, refl, sym, ap, ◌∙◌, ◌⊎◌, inl, inr, Bool, true, false, not, ◌&&◌, [], ◌∷◌, ◌++◌,
  Option, none, some, String, eqb, length, get_elem?, Option-cases, if◌then◌else◌,
}
use prompto.Daemon.Cancel.{CancelKind, repaint}
use prompto.Daemon.ReloadGate.{release}
use prompto.Daemon.Registry.{Flags, Engine, RenderHandle, start_render}
use prompto.Daemon.RenderPipeline.{
  set, HubOps, ActiveRender, Pipeline, Rendering, PromptBundle, complete, publish_segment, admitted,
  new_active_render, start_admitted, start, lacks_config, is_primary_request, make_bundle,
  registry_of, session_hub, set_registry, hub_at,
}
use prompto.Daemon.RenderPipeline.Slots.{close_it, is_live, Retires, complete-Retires}

if_false {ℓ} : {A : Type ℓ} (b : Bool) (x y : A) → b ≡ false → (if b then x else y) ≡ y
if_false true x y h = cc
if_false false x y h = refl

-- What `Start` returns.
abbrev pub Result : Type 0 → Type 0
Result H = (PromptBundle × Option ℕ) × Pipeline H

-- A handle that is returned keeps its slot; one that is not has been retired.
abbrev pub Accounts : {H : Type 0} → Pipeline H → ℕ → Result H → Type 0
Accounts p a r =
    ((r.0.1 ≡ some a) × (r.1.gate ≡ p.gate) × (r.1.renders ≡ p.renders))
    ⊎ ((r.0.1 ≡ none) × Retires p a r.1)

Accounts-if :
    {H : Type 0} (p : Pipeline H) (a : ℕ) (b : Bool) (x y : Result H)
    → Accounts p a x
    → Accounts p a y
    → Accounts p a (if b then x else y)
Accounts-if p a true x y hx hy = hx
Accounts-if p a false x y hx hy = hy

Accounts-pending :
    {H : Type 0} (p final : Pipeline H) (a : ℕ) (b : Bool) (x : PromptBundle)
    → final.gate ≡ p.gate
    → final.renders ≡ p.renders
    → Accounts p a ((x, some a), if b then final else p)
Accounts-pending p final a true x gate renders = inl (refl, gate, renders)
Accounts-pending p final a false x gate renders = inl (refl, refl, refl)

-- Retiring looks at the slots alone.
Retires-same :
    {H : Type 0} (p p' q : Pipeline H) (a : ℕ)
    → p'.gate ≡ p.gate
    → p'.renders ≡ p.renders
    → Retires p' a q
    → Retires p a q
Retires-same p p' q a g r (inl (dead, gate, renders)) =
    inl (ap (λ rs. is_live rs a) (sym r) ∙ dead, gate ∙ g, renders ∙ r)
Retires-same p p' q a g r (inr (x, h, live, gate, renders)) = inr (
  x,
  ap (λ rs. get_elem? rs a) (sym r) ∙ h,
  live,
  gate ∙ ap release g,
  renders ∙ ap (λ rs. set rs a (close_it x)) r,
)

module _ {H : Type 0} (ops : HubOps H) where
  publish_segment_same :
      (p : Pipeline H) (a : ℕ) (name : String)
      → ((publish_segment ops p a name).gate ≡ p.gate)
        × ((publish_segment ops p a name).renders ≡ p.renders)
  unfolding publish_segment
  publish_segment_same p a name = elim (Option-cases (get_elem? p.renders a)) [
    | inl missing ↦ rw (missing, publish_segment) (refl, refl)
    | inr (r, h) ↦ rw (h, publish_segment) (refl, refl)
  ]

  module _ (factory : Option Flags → Option Engine) where
    start_admitted-Accounts :
        (p : Pipeline H) (rendering : Rendering) (a : ℕ) (handle : RenderHandle)
        (flags : Option Flags) (kind : CancelKind)
        → Accounts p a (start_admitted ops factory p rendering a handle flags kind)
    unfolding start_admitted
    start_admitted-Accounts p rendering a handle flags kind =
        let final = publish_segment ops p a "" in
        let (gate, renders) = publish_segment_same p a "" in
        let ended = complete-Retires p a in
        let finished =
          Retires-same p final (complete final a) a gate renders (complete-Retires final a) in
        Accounts-if p a (lacks_config handle.engine) _ _
          (Accounts-if p a (repaint kind && not handle.reattached) _ _ (inr (refl, ended))
            (inl (refl, refl, refl)))
          (Accounts-if p a (not (is_primary_request flags)) _ _ (inl (refl, gate, renders)) (
            Accounts-if p a (repaint kind) _ _
              (Accounts-if p a (not handle.reattached) _ _ (inr (refl, ended)) (
                Accounts-pending p final a (eqb rendering.pending 0)
                  (make_bundle handle.engine rendering.primary false true) gate renders))
              (Accounts-if p a rendering.streaming _ _ (inl (refl, refl, refl))
                (inr (refl, finished)))))

    -- The slot that a request takes, and the handle that it makes.
    abbrev pub Admitted : Pipeline H → (ℕ × RenderHandle) × Pipeline H → Type 0
    Admitted p ((a, handle), q) =
        (a ≡ length p.renders)
        × (q.gate ≡ p.gate)
        × ((r : ActiveRender) × (r.once_done ≡ false) × (q.renders ≡ p.renders ++ r ∷ []))

    -- The handle that a request is given.
    abbrev new_render : Pipeline H → String → Option Flags → CancelKind → ActiveRender
    new_render p id flags kind =
        let (handle, registry) = start_render factory (registry_of p.sessions) id flags kind in
        let (n, p') = session_hub ops (set_registry p registry) id in
        record {
          render = handle;
          hub = n;
          base_sequence = ops.sequence (hub_at ops p'.hubs n);
          once_done = false;
        }

    admitted_lem :
        (p : Pipeline H) (id : String) (flags : Option Flags) (kind : CancelKind)
        → Admitted p (admitted ops factory p id flags kind)
    unfolding admitted session_hub
    admitted_lem p id flags kind = (refl, refl, (new_render p id flags kind, refl, refl))

    new_active_render_free :
        (p : Pipeline H) (id : String) (flags : Option Flags) (kind : CancelKind)
        → p.gate.reloading ≡ false
        → new_active_render ops factory p id flags kind
          ≡ some (
              admitted ops factory
                (record p { gate = record (p.gate) { active = p.gate.active + 1 } })
                id
                flags
                kind)
    unfolding new_active_render
    new_active_render_free p id flags kind free = if_false p.gate.reloading _ _ free

    abbrev continue :
        Rendering
        → Option Flags
        → CancelKind
        → Option ((ℕ × RenderHandle) × Pipeline H)
        → Option (Result H)
    continue rendering flags kind none = none
    continue rendering flags kind (some ((a, handle), q)) =
        some (start_admitted ops factory q rendering a handle flags kind)

    continue_lem :
        (p : Pipeline H) (rendering : Rendering) (id : String) (flags : Option Flags)
        (kind : CancelKind)
        → start ops factory p rendering id flags kind
          ≡ continue rendering flags kind (new_active_render ops factory p id flags kind)
    unfolding start
    continue_lem p rendering id flags kind =
        elim (Option-cases (new_active_render ops factory p id flags kind)) [
          | inl held ↦ rw (held, start)
          | inr (x, h) ↦ rw (h, start)
        ]

    -- `Start` on a pipeline that takes requests: a handle with a slot, which the caller is given or
    -- which has been retired.
    abbrev pub Started : Pipeline H → Result H → Type 0
    Started p r =
        (m : Pipeline H) × (m.gate ≡ record (p.gate) { active = p.gate.active + 1 })
        × ((x : ActiveRender) × (x.once_done ≡ false) × (m.renders ≡ p.renders ++ x ∷ []))
        × Accounts m (length p.renders) r

    pub start-Started :
        (p : Pipeline H) (rendering : Rendering) (id : String) (flags : Option Flags)
        (kind : CancelKind)
        → p.gate.reloading ≡ false
        → (r : Result H) × (start ops factory p rendering id flags kind ≡ some r) × Started p r
    unfolding admitted
    start-Started p rendering id flags kind free =
        let p' : Pipeline H = record p { gate = record (p.gate) { active = p.gate.active + 1 } } in
        let (a, handle) = (admitted ops factory p' id flags kind).0 in
        let m = (admitted ops factory p' id flags kind).1 in
        let (at_end, gate, made) = admitted_lem p' id flags kind in
        (
          start_admitted ops factory m rendering a handle flags kind,
          continue_lem p rendering id flags kind
              ∙ ap (continue rendering flags kind) (new_active_render_free p id flags kind free),
          (m, gate, made, start_admitted-Accounts m rendering a handle flags kind),
        )
