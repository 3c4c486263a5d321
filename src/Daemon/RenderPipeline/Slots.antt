-- ===== src/Daemon/RenderPipeline/Slots.antt =====
-- How the handles of src/daemon/render_pipeline.go account for the slots of the reload gate.
use prompto.Prelude.{
  ℕ, zero, suc, ◌+◌, ◌≡◌, refl, sym, ap, ◌∙◌, subst, ◌⊎◌, inl, inr, Bool, true, false, not, List,
  [], ◌∷◌, ◌++◌, none, some, arith, eqb, eqb_iff, length, get_elem?, set, count_p, Bool-cases,
  Option-cases, if◌then◌else◌,
}
use prompto.Daemon.ReloadGate.{release}
use prompto.Daemon.Registry.{complete as complete_handle}
use prompto.Daemon.RenderPipeline.{
  ActiveRender, Pipeline, complete, release_active, release_slot, set_registry, mark, registry_of,
}

abbrev pub is_open : ActiveRender → Bool
is_open active = not active.once_done

-- A handle that has neither been completed nor released.
abbrev pub is_live : List ActiveRender → ℕ → Bool
is_live [] a = false
is_live (r ∷ rs) zero = is_open r
is_live (r ∷ rs) (suc a) = is_live rs a

-- Every live handle has a slot, and no other has.
abbrev pub Counted : {H : Type 0} → Pipeline H → Type 0
Counted p = p.gate.active ≡ count_p is_open p.renders

is_live-get_elem? :
    (rs : List ActiveRender) (a : ℕ) (r : ActiveRender)
    → get_elem? rs a ≡ some r
    → is_live rs a ≡ is_open r
is_live-get_elem? [] a r h = cc
is_live-get_elem? (x ∷ rs) zero r h = cc
is_live-get_elem? (x ∷ rs) (suc a) r h = is_live-get_elem? rs a r h

is_live-missing : (rs : List ActiveRender) (a : ℕ) → get_elem? rs a ≡ none → is_live rs a ≡ false
is_live-missing [] a h = refl
is_live-missing (x ∷ rs) zero h = cc
is_live-missing (x ∷ rs) (suc a) h = is_live-missing rs a h

abbrev pub close_it : ActiveRender → ActiveRender
close_it r = record r { once_done = true }

is_live-set :
    (rs : List ActiveRender) (a b : ℕ) (r : ActiveRender)
    → get_elem? rs a ≡ some r
    → is_live (set rs a (close_it r)) b ≡ (if eqb a b then false else is_live rs b)
is_live-set [] a b r h = cc
is_live-set (x ∷ rs) zero zero r h = ground arith
is_live-set (x ∷ rs) zero (suc b) r h = ground arith
is_live-set (x ∷ rs) (suc a) zero r h = ground arith
is_live-set (x ∷ rs) (suc a) (suc b) r h = ground (arith, is_live-set rs a b r h)

pub is_live-append :
    (rs : List ActiveRender) (r : ActiveRender) (b : ℕ)
    → is_live (rs ++ r ∷ []) b ≡ (if eqb (length rs) b then is_open r else is_live rs b)
is_live-append [] r zero = ground arith
is_live-append [] r (suc b) = ground arith
is_live-append (x ∷ rs) r zero = ground arith
is_live-append (x ∷ rs) r (suc b) = ground (arith, is_live-append rs r b)

pub count_p-append_open :
    (rs : List ActiveRender) (r : ActiveRender)
    → r.once_done ≡ false
    → count_p is_open (rs ++ r ∷ []) ≡ count_p is_open rs + 1
count_p-append_open [] r h = ground arith
count_p-append_open (x ∷ rs) r h = ground (arith, count_p-append_open rs r h)

count_p-close :
    (rs : List ActiveRender) (a : ℕ) (r : ActiveRender)
    → get_elem? rs a ≡ some r
    → r.once_done ≡ false
    → count_p is_open (set rs a (close_it r)) + 1 ≡ count_p is_open rs
count_p-close [] a r h o = cc
count_p-close (x ∷ rs) zero r h o = ground arith
count_p-close (x ∷ rs) (suc a) r h o = ground (arith, count_p-close rs a r h o)

-- What retiring a handle does to the slots: nothing, if it was retired, or its slot goes back.
abbrev pub Retires : {H : Type 0} → Pipeline H → ℕ → Pipeline H → Type 0
Retires p a q =
    ((is_live p.renders a ≡ false) × (q.gate ≡ p.gate) × (q.renders ≡ p.renders))
    ⊎ ((r : ActiveRender) × (get_elem? p.renders a ≡ some r)
        × (r.once_done ≡ false)
        × (q.gate ≡ release p.gate)
        × (q.renders ≡ set p.renders a (close_it r)))

module _ {H : Type 0} (p : Pipeline H) (a : ℕ) where
  complete_missing : get_elem? p.renders a ≡ none → complete p a ≡ p
  unfolding complete
  complete_missing h = rw (h, complete)

  complete_over :
      (r : ActiveRender) → get_elem? p.renders a ≡ some r → r.once_done ≡ true → complete p a ≡ p
  unfolding complete
  complete_over r h o = rw (h, complete) (rw o)

  complete_open :
      (r : ActiveRender)
      → get_elem? p.renders a ≡ some r
      → r.once_done ≡ false
      → complete p a
        ≡ release_slot
            (set_registry (mark p a r) (complete_handle r.render (registry_of p.sessions)))
  unfolding complete
  complete_open r h o = rw (h, complete) (rw o)

  release_missing : get_elem? p.renders a ≡ none → release_active p a ≡ p
  unfolding release_active
  release_missing h = rw (h, release_active)

  release_over :
      (r : ActiveRender)
      → get_elem? p.renders a ≡ some r
      → r.once_done ≡ true
      → release_active p a ≡ p
  unfolding release_active
  release_over r h o = rw (h, release_active) (rw o)

  release_open :
      (r : ActiveRender)
      → get_elem? p.renders a ≡ some r
      → r.once_done ≡ false
      → release_active p a ≡ release_slot (mark p a r)
  unfolding release_active
  release_open r h o = rw (h, release_active) (rw o)

  untouched : (q : Pipeline H) → is_live p.renders a ≡ false → q ≡ p → Retires p a q
  untouched q l e = subst (Retires p a) (sym e) (inl (l, refl, refl))

  pub complete-Retires : Retires p a (complete p a)
  complete-Retires = elim (Option-cases (get_elem? p.renders a)) [
    | inl missing ↦
        untouched (complete p a) (is_live-missing p.renders a missing) (complete_missing missing)
    | inr (r, h) ↦ elim (Bool-cases r.once_done) [
      | inl over ↦
          untouched (complete p a) (is_live-get_elem? p.renders a r h ∙ ap not over)
            (complete_over r h over)
      | inr live ↦ subst (Retires p a) (sym (complete_open r h live)) (inr (r, h, live, refl, refl))
    ]
  ]

  pub release_active-Retires : Retires p a (release_active p a)
  release_active-Retires = elim (Option-cases (get_elem? p.renders a)) [
    | inl missing ↦
        untouched (release_active p a) (is_live-missing p.renders a missing)
          (release_missing missing)
    | inr (r, h) ↦ elim (Bool-cases r.once_done) [
      | inl over ↦
          untouched (release_active p a) (is_live-get_elem? p.renders a r h ∙ ap not over)
            (release_over r h over)
      | inr live ↦ subst (Retires p a) (sym (release_open r h live)) (inr (r, h, live, refl, refl))
    ]
  ]

pub Retires-Counted :
    {H : Type 0} (p : Pipeline H) (a : ℕ) (q : Pipeline H) → Retires p a q → Counted p → Counted q
unfolding release
Retires-Counted p a q (inl (dead, gate, renders)) c = rw (gate, renders) c
Retires-Counted p a q (inr (r, h, live, gate, renders)) c =
    rw (gate, renders) (ground (arith, count_p-close p.renders a r h live))

pub is_live-Retires :
    {H : Type 0} (p : Pipeline H) (a : ℕ) (q : Pipeline H) (b : ℕ)
    → Retires p a q
    → is_live q.renders b ≡ (if eqb a b then false else is_live p.renders b)
is_live-Retires p a q b (inl (dead, gate, renders)) = elim (Bool-cases (eqb a b)) [
  | inl same ↦
      rw (renders, same) (subst (λ c. is_live p.renders c ≡ false) ((eqb_iff a b).0 same) dead)
  | inr other ↦ rw (renders, other)
]
is_live-Retires p a q b (inr (r, h, live, gate, renders)) =
    ap (λ rs. is_live rs b) renders ∙ is_live-set p.renders a b r h

pub reloading-Retires :
    {H : Type 0} (p : Pipeline H) (a : ℕ) (q : Pipeline H)
    → Retires p a q
    → q.gate.reloading ≡ p.gate.reloading
unfolding release
reloading-Retires p a q (inl (dead, gate, renders)) = rw gate
reloading-Retires p a q (inr (r, h, live, gate, renders)) = rw gate (ground arith)
