-- ===== src/Daemon/UpdateHub/Split.antt =====
-- How src/daemon/update_hub.go, `Publish`, parts the waiters into those it answers and the rest.
use prompto.Prelude.{
  ℕ, ◌<◌, ◌≤◌, ◌≡◌, refl, ◌∙◌, sym, subst, ◌⊎◌, inl, inr, true, false, List, [], ◌∷◌, map, arith,
  ltb, eqb, eqb_iff, All, Bool-cases, ltb→lt,
}
use prompto.Daemon.UpdateHub.{UpdateSnapshot, UpdateWaiter, Channel, split_waiters}
use prompto.Daemon.UpdateHub.Notify.{contains, Fresh, deliver, get_elem?-deliver}

abbrev pub chans : List UpdateWaiter → List ℕ
chans = map (λ w. w.ch)

module _ (n : ℕ) where
  abbrev pub ready_of : List UpdateWaiter → List ℕ
  ready_of ws = (split_waiters n ws).0

  abbrev pub pending_of : List UpdateWaiter → List UpdateWaiter
  pending_of ws = (split_waiters n ws).1

  pub pending_waiting : (ws : List UpdateWaiter) → All (λ w. n ≤ w.after) (pending_of ws)
  unfolding split_waiters
  pending_waiting [] = tt
  pending_waiting (w ∷ ws) = ground (arith, pending_waiting ws)

  pub contains-split :
      (ws : List UpdateWaiter) (i : ℕ)
      → contains i (chans ws) ≡ false
      → (contains i (ready_of ws) ≡ false) × (contains i (chans (pending_of ws)) ≡ false)
  unfolding split_waiters
  contains-split [] i h = (refl, refl)
  contains-split (w ∷ ws) i h = ground (arith, contains-split ws i)

  pub Fresh-ready :
      (cs : List Channel) (ws : List UpdateWaiter) → Fresh cs (chans ws) → Fresh cs (ready_of ws)
  unfolding split_waiters
  Fresh-ready cs [] f = tt
  Fresh-ready cs (w ∷ ws) f = ground (arith, Fresh-ready cs ws f.2, contains-split ws w.ch f.1)

  abbrev Apart : ℕ → List UpdateWaiter → Type 0
  Apart i = All (λ v. eqb v.ch i ≡ false)

  Apart-of : (i : ℕ) (ws : List UpdateWaiter) → contains i (chans ws) ≡ false → Apart i ws
  Apart-of i [] h = tt
  Apart-of i (w ∷ ws) h = (ground arith, Apart-of i ws (ground arith))

  -- Where each waiter goes.
  abbrev pub Goes : List ℕ → List ℕ → UpdateWaiter → Type 0
  Goes ready pending w =
      ((w.after < n) × (contains w.ch ready ≡ true))
      ⊎ ((n ≤ w.after) × (contains w.ch ready ≡ false) × (contains w.ch pending ≡ true))

  Goes-ready :
      (i : ℕ) (ready pending : List ℕ) (ws : List UpdateWaiter)
      → Apart i ws
      → All (Goes ready pending) ws
      → All (Goes (i ∷ ready) pending) ws
  Goes-ready i ready pending [] a g = tt
  Goes-ready i ready pending (w ∷ ws) a g =
      (ground (arith, eqb_iff w.ch i, eqb_iff i w.ch), Goes-ready i ready pending ws a.1 g.1)

  Goes-pending :
      (i : ℕ) (ready pending : List ℕ) (ws : List UpdateWaiter)
      → All (Goes ready pending) ws
      → All (Goes ready (i ∷ pending)) ws
  Goes-pending i ready pending [] g = tt
  Goes-pending i ready pending (w ∷ ws) g = (ground arith, Goes-pending i ready pending ws g.1)

  split_ready :
      (w : UpdateWaiter) (ws : List UpdateWaiter)
      → ltb w.after n ≡ true
      → split_waiters n (w ∷ ws) ≡ (w.ch ∷ ready_of ws, pending_of ws)
  unfolding split_waiters
  split_ready w ws h = rw h

  split_pending :
      (w : UpdateWaiter) (ws : List UpdateWaiter)
      → ltb w.after n ≡ false
      → split_waiters n (w ∷ ws) ≡ (ready_of ws, w ∷ pending_of ws)
  unfolding split_waiters
  split_pending w ws h = rw h

  abbrev pub AllGo : List UpdateWaiter → List ℕ × List UpdateWaiter → Type 0
  AllGo ws r = All (Goes r.0 (chans r.1)) ws

  pub split-Goes :
      (cs : List Channel) (ws : List UpdateWaiter)
      → Fresh cs (chans ws)
      → AllGo ws (split_waiters n ws)
  split-Goes cs [] f = tt
  split-Goes cs (w ∷ ws) f =
      let rest = split-Goes cs ws f.2 in
      let apart = contains-split ws w.ch f.1 in
      let self = eqb_iff w.ch w.ch in
      elim (Bool-cases (ltb w.after n)) [
        | inl now ↦ subst (AllGo (w ∷ ws)) (sym (split_ready w ws now)) (
          inl (ltb→lt _ _ now, ground (arith, self)),
          Goes-ready w.ch (ready_of ws) (chans (pending_of ws)) ws (Apart-of w.ch ws f.1) rest,
        )
        | inr later ↦ subst (AllGo (w ∷ ws)) (sym (split_pending w ws later)) (
          inr (ground arith, apart.0, ground (arith, self)),
          Goes-pending w.ch (ready_of ws) (chans (pending_of ws)) ws rest,
        )
      ]

  pub Fresh-split :
      (cs : List Channel) (ws : List UpdateWaiter)
      → Fresh cs (chans ws)
      → Fresh cs (chans (pending_of ws))
  unfolding split_waiters
  Fresh-split cs [] f = tt
  Fresh-split cs (w ∷ ws) f = ground (arith, Fresh-split cs ws f.2, contains-split ws w.ch f.1)

  -- No channel that is notified belongs to a waiter that stays.
  abbrev Unnotified : List ℕ → List UpdateWaiter → Type 0
  Unnotified ready = All (λ v. contains v.ch ready ≡ false)

  Unnotified-cons :
      (i : ℕ) (ready : List ℕ) (ws : List UpdateWaiter)
      → Apart i ws
      → Unnotified ready ws
      → Unnotified (i ∷ ready) ws
  Unnotified-cons i ready [] a u = tt
  Unnotified-cons i ready (w ∷ ws) a u =
      (ground (arith, eqb_iff w.ch i, eqb_iff i w.ch), Unnotified-cons i ready ws a.1 u.1)

  pub split-Unnotified :
      (cs : List Channel) (ws : List UpdateWaiter)
      → Fresh cs (chans ws)
      → Unnotified (ready_of ws) (pending_of ws)
  unfolding split_waiters
  split-Unnotified cs [] f = tt
  split-Unnotified cs (w ∷ ws) f =
      let apart = contains-split ws w.ch f.1 in
      ground (
        arith,
        split-Unnotified cs ws f.2,
        apart,
        Unnotified-cons w.ch (ready_of ws) (pending_of ws) (Apart-of w.ch (pending_of ws) apart.1),
      )

pub Fresh-deliver :
    (ready : List ℕ) (s : UpdateSnapshot) (cs : List Channel) (ws : List UpdateWaiter)
    → Fresh cs ready
    → All (λ v. contains v.ch ready ≡ false) ws
    → Fresh cs (chans ws)
    → Fresh (deliver ready s cs) (chans ws)
Fresh-deliver ready s cs [] r u f = tt
Fresh-deliver ready s cs (w ∷ ws) r u f =
    (get_elem?-deliver ready s cs w.ch r ∙ rw u.0 f.0, f.1, Fresh-deliver ready s cs ws r u.1 f.2)
