-- ===== src/Daemon/RenderSlots/Accounting.antt =====
-- That src/daemon/daemon.go loses no slot of the reload gate.
use text.Mathlib.TextEquality.{eq_iff}
use prompto.Prelude.{
  ℕ, ◌≡◌, refl, sym, ap, ◌∙◌, subst, ◌≢◌, ◌⊎◌, inl, inr, Bool, true, false, List, Option, none,
  some, String, arith, eqb, eqb_iff, Bool-cases, Option-cases, if◌then◌else◌, string_comparable,
}
use prompto.Prelude.Dict.{Dict, lookup, insert, delete, lookup-insert_ne, lookup-delete_ne}
use prompto.Daemon.RenderPipeline.{ActiveRender, Pipeline, complete, release_active, remove_session}
use prompto.Daemon.RenderPipeline.Slots.{
  is_live, Counted, Retires, complete-Retires, release_active-Retires, Retires-Counted,
  is_live-Retires, reloading-Retires,
}
use prompto.Daemon.RenderSlots.{
  release_section, drop_section, Daemon, complete_some, release_some,
  release_active_render_if_current, complete_render,
}

-- Every live handle is the entry of a session.
abbrev pub Owned : Dict String ℕ → List ActiveRender → Type 0
Owned renders rs = (a : ℕ) → (is_live rs a ≡ false) ⊎ ((id : String) × (lookup id renders ≡ some a))

pub record IsValid {H : Type 0} (d : Daemon H) : Type 0 where
  pub free : d.pipeline.gate.reloading ≡ false
  pub counted : Counted d.pipeline
  pub owned : Owned d.renders d.pipeline.renders

abbrev pub hits : Option ℕ → ℕ → Bool
hits none b = false
hits (some a) b = eqb a b

-- The slots after the handle, if any, has been retired.
pub record Retired {H : Type 0} (p : Pipeline H) (o : Option ℕ) (q : Pipeline H) : Type 0 where
  pub live : (b : ℕ) → is_live q.renders b ≡ (if hits o b then false else is_live p.renders b)
  pub counted : Counted p → Counted q
  pub reloading : q.gate.reloading ≡ p.gate.reloading

module _ {H : Type 0} where
  of_Retires : (p : Pipeline H) (a : ℕ) (q : Pipeline H) → Retires p a q → Retired p (some a) q
  of_Retires p a q r = record {
    live = λ b. is_live-Retires p a q b r;
    counted = Retires-Counted p a q r;
    reloading = reloading-Retires p a q r;
  }

  pub none-Retired : (p : Pipeline H) → Retired p none p
  none-Retired p = record { live = λ b. refl; counted = λ c. c; reloading = refl }

  pub complete_some-Retired : (p : Pipeline H) (o : Option ℕ) → Retired p o (complete_some p o)
  complete_some-Retired p none = none-Retired p
  complete_some-Retired p (some a) = of_Retires p a (complete p a) (complete-Retires p a)

  pub release_some-Retired : (p : Pipeline H) (o : Option ℕ) → Retired p o (release_some p o)
  release_some-Retired p none = none-Retired p
  release_some-Retired p (some a) = of_Retires p a (release_active p a) (release_active-Retires p a)

-- Entries that differ in one session alone.
abbrev pub SameBut : String → Dict String ℕ → Dict String ℕ → Type 0
SameBut id m m' = (j : String) → (id ≡ j) ⊎ (lookup j m' ≡ lookup j m)

same_or_not : (a b : String) → (a ≡ b) ⊎ (a ≢ b)
same_or_not a b = ground (arith, eq_iff a b)

pub delete-SameBut : (id : String) (m : Dict String ℕ) → SameBut id m (delete id m)
delete-SameBut id m j = elim (same_or_not id j) [
  | inl same ↦ inl same
  | inr other ↦ inr (lookup-delete_ne id j m other)
]

pub insert-SameBut : (id : String) (a : ℕ) (m : Dict String ℕ) → SameBut id m (insert id a m)
insert-SameBut id a m j = elim (same_or_not id j) [
  | inl same ↦ inl same
  | inr other ↦ inr (lookup-insert_ne id j a m other)
]

-- An owner other than the session, or the session's entry.
pub kept_owner :
    (m m' : Dict String ℕ) (id : String) (b : ℕ)
    → SameBut id m m'
    → hits (lookup id m) b ≡ false
    → (j : String) × (lookup j m ≡ some b)
    → (j : String) × (lookup j m' ≡ some b)
kept_owner m m' id b same unhit (j, h) = elim (same j) [
  | inl e ↦ absurd (
      true_ne (
        sym (hit_self b)
        ∙ ap (λ o. hits o b) (sym h)
        ∙ ap (λ k. hits (lookup k m) b) (sym e)
        ∙ unhit))
  | inr e ↦ (j, e ∙ h)
]
  where
    true_ne : true ≡ false → ⊥
    true_ne e = cc

    hit_self : (n : ℕ) → eqb n n ≡ true
    hit_self n = ground (arith, eqb_iff n n)

-- Retiring the session's handle and deleting its entry.
dropped-Owned :
    {H : Type 0} (m m' : Dict String ℕ) (id : String) (p q : Pipeline H)
    → SameBut id m m'
    → Retired p (lookup id m) q
    → Owned m p.renders
    → Owned m' q.renders
dropped-Owned m m' id p q same r o b = elim (Bool-cases (hits (lookup id m) b)) [
  | inl hit ↦ inl (r.live b ∙ rw hit)
  | inr unhit ↦ elim (o b) [
    | inl dead ↦ inl (r.live b ∙ rw (unhit, dead))
    | inr owner ↦ inr (kept_owner m m' id b same unhit owner)
  ]
]

pub dropped-IsValid :
    {H : Type 0} (d : Daemon H) (id : String) (q : Pipeline H)
    → Retired d.pipeline (lookup id d.renders) q
    → IsValid d
    → IsValid (record d { renders = delete id d.renders; pipeline = q })
dropped-IsValid d id q r v = record {
  free = r.reloading ∙ v.free;
  counted = r.counted v.counted;
  owned =
      dropped-Owned d.renders (delete id d.renders) id d.pipeline q (delete-SameBut id d.renders) r
        v.owned;
}

pub complete_render-IsValid :
    {H : Type 0} (d : Daemon H) (id : String) → IsValid d → IsValid (complete_render d id)
unfolding complete_render remove_session drop_section
complete_render-IsValid d id v =
    let q = complete_some d.pipeline (lookup id d.renders) in
    let w = dropped-IsValid d id q (complete_some-Retired d.pipeline (lookup id d.renders)) v in
    record { free = w.free; counted = w.counted; owned = w.owned }

module _ {H : Type 0} (d : Daemon H) (id : String) (a : ℕ) where
  release_if_current-none : lookup id d.renders ≡ none → release_active_render_if_current d id a ≡ d
  unfolding release_active_render_if_current release_section
  release_if_current-none h = rw (h, release_active_render_if_current, release_section)

  release_if_current-other :
      (b : ℕ)
      → lookup id d.renders ≡ some b
      → eqb b a ≡ false
      → release_active_render_if_current d id a ≡ d
  unfolding release_active_render_if_current release_section
  release_if_current-other b h e = rw (h, release_active_render_if_current, release_section) (rw e)

  release_if_current-same :
      (b : ℕ)
      → lookup id d.renders ≡ some b
      → eqb b a ≡ true
      → release_active_render_if_current d id a
        ≡ record d { renders = delete id d.renders; pipeline = complete d.pipeline a }
  unfolding release_active_render_if_current release_section
  release_if_current-same b h e = rw (h, release_active_render_if_current, release_section) (rw e)

pub release_if_current-IsValid :
    {H : Type 0} (d : Daemon H) (id : String) (a : ℕ)
    → IsValid d
    → IsValid (release_active_render_if_current d id a)
release_if_current-IsValid d id a v = elim (Option-cases (lookup id d.renders)) [
  | inl missing ↦ subst IsValid (sym (release_if_current-none d id a missing)) v
  | inr (b, h) ↦ elim (Bool-cases (eqb b a)) [
    | inl same ↦
        let e = (eqb_iff b a).0 same in
        let r = complete_some-Retired d.pipeline (some a) in
        subst IsValid (sym (release_if_current-same d id a b h same)) (
          dropped-IsValid d id (complete d.pipeline a)
            (subst (λ o. Retired d.pipeline o (complete d.pipeline a)) (sym (h ∙ ap some e)) r) v)
    | inr other ↦ subst IsValid (sym (release_if_current-other d id a b h other)) v
  ]
]
