-- ===== src/Daemon/RenderSlots/Requests.antt =====
-- That a request of src/daemon/daemon.go takes one slot and gives back the one it replaces.
use prompto.Prelude.{
  ℕ, ◌+◌, ◌≡◌, refl, sym, ap, ◌∙◌, ◌⊎◌, inl, inr, Bool, true, false, not, ◌||◌, [], ◌∷◌, ◌++◌,
  Option, none, some, String, arith, eqb, eqb_iff, length, count_p, Bool-cases, Option-cases,
  if◌then◌else◌, string_comparable,
}
use prompto.Prelude.Dict.{Dict, lookup, lookup-insert_self, is_some}
use prompto.Daemon.Cancel.{repaint}
use prompto.Daemon.Registry.{Flags, Engine}
use prompto.Daemon.RenderPipeline.{
  HubOps, ActiveRender, Pipeline, Rendering, no_bundle, session_hub, start,
}
use prompto.Daemon.RenderPipeline.Slots.{
  is_open, is_live, is_live-append, Counted, Retires-Counted, is_live-Retires, reloading-Retires,
  count_p-append_open,
}
use prompto.Daemon.RenderPipeline.Admission.{Result, Accounts, start-Started}
use prompto.Daemon.RenderSlots.{
  switch_section, store_section, Daemon, RenderRequest, RenderResponse, store_render,
  without_retired, complete_some, release_some, is_completed_render, retire_or_supersede, started,
  start_render, answered,
}
use prompto.Daemon.RenderSlots.Accounting.{
  Owned, IsValid, hits, Retired, complete_some-Retired, release_some-Retired, SameBut,
  delete-SameBut, insert-SameBut, kept_owner,
}

-- A pipeline after `Start`: one handle more, which is live if the caller is given it.
pub record Opened {H : Type 0} (p : Pipeline H) (o : Option ℕ) (q : Pipeline H) : Type 0 where
  pub live :
      (b : ℕ)
      → is_live q.renders b ≡ (if eqb (length p.renders) b then is_some o else is_live p.renders b)
  pub handle : (o ≡ some (length p.renders)) ⊎ (o ≡ none)
  pub counted : Counted p → Counted q
  pub reloading : q.gate.reloading ≡ p.gate.reloading

module _ {H : Type 0} (p m : Pipeline H) (x : ActiveRender)
    (gate : m.gate ≡ record (p.gate) { active = p.gate.active + 1 }) (fresh : x.once_done ≡ false)
    (made : m.renders ≡ p.renders ++ x ∷ []) where
  admitted-Counted : Counted p → Counted m
  admitted-Counted c =
      ap (λ g. g.active) gate
      ∙ ap (λ n. n + 1) c
      ∙ sym (count_p-append_open p.renders x fresh)
      ∙ ap (count_p is_open) (sym made)

  admitted_live :
      (b : ℕ)
      → is_live m.renders b ≡ (if eqb (length p.renders) b then true else is_live p.renders b)
  admitted_live b =
      ap (λ rs. is_live rs b) made
      ∙ is_live-append p.renders x b
      ∙ ap (λ v. if eqb (length p.renders) b then v else is_live p.renders b) (ap not fresh)

  pub Accounts-Opened : (r : Result H) → Accounts m (length p.renders) r → Opened p r.0.1 r.1
  Accounts-Opened r (inl (given, same_gate, same_renders)) = record {
    live = λ b.
        ap (λ rs. is_live rs b) same_renders
        ∙ admitted_live b
        ∙ ap (λ o. if eqb (length p.renders) b then is_some o else is_live p.renders b) (sym given);
    handle = inl given;
    counted = λ c.
        ap (λ g. g.active) same_gate ∙ admitted-Counted c ∙ ap (count_p is_open) (sym same_renders);
    reloading = ap (λ g. g.reloading) same_gate ∙ ap (λ g. g.reloading) gate;
  }
  Accounts-Opened r (inr (ended, ret)) = record {
    live = λ b.
        is_live-Retires m (length p.renders) r.1 b ret
        ∙ retired_live (eqb (length p.renders) b) (is_live m.renders b) (is_live p.renders b)
            (admitted_live b)
        ∙ ap (λ o. if eqb (length p.renders) b then is_some o else is_live p.renders b) (sym ended);
    handle = inr ended;
    counted = λ c. Retires-Counted m (length p.renders) r.1 ret (admitted-Counted c);
    reloading = reloading-Retires m (length p.renders) r.1 ret ∙ ap (λ g. g.reloading) gate;
  }
    where
      retired_live :
          (e u v : Bool)
          → u ≡ (if e then true else v)
          → (if e then false else u) ≡ (if e then false else v)
      retired_live true u v h = refl
      retired_live false u v h = h

module _ {H : Type 0} (ops : HubOps H) where
  -- The switch looks at the session's handle alone.
  abbrev pub Switch : Daemon H → String → Option ℕ × Option ℕ → Type 0
  Switch d id (retire, superseded) =
      ((retire ≡ lookup id d.renders) × (superseded ≡ none))
      ⊎ ((retire ≡ none) × (superseded ≡ lookup id d.renders))

  retire_or_supersede-Switch :
      (d : Daemon H) (request : RenderRequest)
      → Switch d request.session_id (retire_or_supersede ops d request)
  unfolding retire_or_supersede
  retire_or_supersede-Switch d request = elim (Option-cases (lookup request.session_id d.renders)) [
    | inl missing ↦ rw (missing, retire_or_supersede) (inl (refl, refl))
    | inr (a, h) ↦ elim (Bool-cases (is_completed_render ops d a || not (repaint request.cancel))) [
      | inl over ↦ rw (h, retire_or_supersede) (rw over (inl (refl, refl)))
      | inr soft ↦ rw (h, retire_or_supersede) (rw soft (inr (refl, refl)))
    ]
  ]

  session_hub_same :
      (p : Pipeline H) (id : String)
      → ((session_hub ops p id).1.gate ≡ p.gate) × ((session_hub ops p id).1.renders ≡ p.renders)
  unfolding session_hub
  session_hub_same p id = (refl, refl)

-- The entries after a request.
entries-SameBut :
    (m : Dict String ℕ) (id : String) (retire o : Option ℕ)
    → SameBut id m (store_render (without_retired m id retire) id o)
entries-SameBut m id retire o j = elim (stored (without_retired m id retire) o) [
  | inl same ↦ inl same
  | inr e ↦ elim (dropped retire) [ inl same ↦ inl same | inr f ↦ inr (e ∙ f) ]
]
  where
    stored :
        (n : Dict String ℕ) (v : Option ℕ)
        → (id ≡ j) ⊎ (lookup j (store_render n id v) ≡ lookup j n)
    stored n none = delete-SameBut id n j
    stored n (some a) = insert-SameBut id a n j

    dropped : (v : Option ℕ) → (id ≡ j) ⊎ (lookup j (without_retired m id v) ≡ lookup j m)
    dropped none = inr refl
    dropped (some a) = delete-SameBut id m j

stored_entry :
    (m : Dict String ℕ) (id : String) (o : Option ℕ) (a : ℕ)
    → o ≡ some a
    → lookup id (store_render m id o) ≡ some a
stored_entry m id none a h = cc
stored_entry m id (some b) a h = lookup-insert_self id b m ∙ h

-- Which handles are live after a request, by those that it retires and supersedes.
module _ {H : Type 0} (p0 p1 p2 p3 : Pipeline H) (m : Dict String ℕ) (id : String)
    (retire superseded o : Option ℕ) (first : Retired p0 retire p1) (opened : Opened p1 o p2)
    (last : Retired p2 superseded p3)
    (switch : ((retire ≡ lookup id m) × (superseded ≡ none))
      ⊎ ((retire ≡ none) × (superseded ≡ lookup id m))) where
  hits_both : (b : ℕ) → (hits retire b || hits superseded b) ≡ hits (lookup id m) b
  hits_both b = elim switch [
    | inl (r, s) ↦ rw (r, s) (ground arith)
    | inr (r, s) ↦ rw (r, s) (ground arith)
  ]

  request-Owned :
      Owned m p0.renders → Owned (store_render (without_retired m id retire) id o) p3.renders
  request-Owned owned b = elim (Bool-cases (eqb (length p1.renders) b)) [
    | inl new ↦ elim opened.handle [
      | inl given ↦ inr (
        id,
        stored_entry (without_retired m id retire) id o (length p1.renders) given
            ∙ ap some ((eqb_iff (length p1.renders) b).0 new),
      )
      | inr ended ↦ inl (ground (arith, last.live b, opened.live b, ended))
    ]
    | inr old ↦ elim (Bool-cases (hits (lookup id m) b)) [
      | inl hit ↦ inl (ground (arith, last.live b, opened.live b, first.live b, hits_both b))
      | inr unhit ↦ elim (owned b) [
        | inl dead ↦ inl (ground (arith, last.live b, opened.live b, first.live b))
        | inr owner ↦ inr (
            kept_owner m (store_render (without_retired m id retire) id o) id b
              (entries-SameBut m id retire o) unhit owner)
      ]
    ]
  ]

if_same {ℓ} : {A : Type ℓ} (b : Bool) (x y : A) → b ≡ false → (if b then x else y) ≡ y
if_same true x y h = cc
if_same false x y h = refl

if_true {ℓ} : {A : Type ℓ} (b : Bool) (x y : A) → b ≡ true → (if b then x else y) ≡ x
if_true true x y h = refl
if_true false x y h = cc

-- The daemon when the handle that the switch retires has been completed.
abbrev retiring : {H : Type 0} → Daemon H → String → Option ℕ → Daemon H
retiring d id retire = record d {
  renders = without_retired d.renders id retire;
  pipeline = complete_some d.pipeline retire;
}

module _ {H : Type 0} (ops : HubOps H) (factory : Option Flags → Option Engine) (d : Daemon H)
    (rendering : Rendering) (request : RenderRequest) where
  start_render_stopped :
      d.stopped ≡ true
      → start_render ops factory d rendering request
        ≡ some (record { bundle = no_bundle; type = "stopped"; sequence = 0 }, d)
  unfolding start_render
  start_render_stopped over = if_true d.stopped _ _ over

  start_render_running :
      d.stopped ≡ false
      → let (retire, superseded) = retire_or_supersede ops d request in
        let d' = retiring d request.session_id retire in
        start_render ops factory d rendering request
        ≡ answered ops factory d' request superseded (
            start ops factory d'.pipeline rendering request.session_id request.flags request.cancel)
  unfolding start_render switch_section
  start_render_running running = if_same d.stopped _ _ running

started-IsValid :
    {H : Type 0} (ops : HubOps H) (factory : Option Flags → Option Engine) (d : Daemon H)
    (request : RenderRequest) (superseded : Option ℕ) (r : Result H)
    → (release_some r.1 superseded).gate.reloading ≡ false
    → Counted (release_some r.1 superseded)
    → Owned (store_render d.renders request.session_id r.0.1) (release_some r.1 superseded).renders
    → IsValid (started ops factory d request superseded r).1
unfolding started session_hub store_section
started-IsValid ops factory d request superseded r f c o = record {
  free = f;
  counted = c;
  owned = o;
}

-- A request that no reload holds back is answered, and keeps the accounting.
pub start_render-IsValid :
    {H : Type 0} (ops : HubOps H) (factory : Option Flags → Option Engine) (d : Daemon H)
    (rendering : Rendering) (request : RenderRequest)
    → IsValid d
    → (r : RenderResponse) × (d' : Daemon H) × (start_render ops factory d rendering request
        ≡ some (r, d'))
      × IsValid d'
start_render-IsValid ops factory d rendering request v = elim (Bool-cases d.stopped) [
  | inl over ↦ (
    record { bundle = no_bundle; type = "stopped"; sequence = 0 },
    d,
    start_render_stopped ops factory d rendering request over,
    v,
  )
  | inr running ↦
      let id = request.session_id in
      let (retire, superseded) = retire_or_supersede ops d request in
      let switch = retire_or_supersede-Switch ops d request in
      let p1 = complete_some d.pipeline retire in
      let first = complete_some-Retired d.pipeline retire in
      let (r, e, (m, gate, (x, fresh, made), accounts)) =
        start-Started ops factory p1 rendering id request.flags request.cancel
          (first.reloading ∙ v.free) in
      let opened = Accounts-Opened p1 m x gate fresh made r accounts in
      let p3 = release_some r.1 superseded in
      let last = release_some-Retired r.1 superseded in
      let d' = retiring d id retire in
      let result = started ops factory d' request superseded r in
      (
        result.0,
        result.1,
        start_render_running ops factory d rendering request running
            ∙ ap (answered ops factory d' request superseded) e,
        started-IsValid ops factory d' request superseded r
            (last.reloading ∙ opened.reloading ∙ first.reloading ∙ v.free)
            (last.counted (opened.counted (first.counted v.counted)))
            (request-Owned d.pipeline p1 r.1 p3 d.renders id retire superseded r.0.1 first opened
              last switch v.owned),
      )
]
