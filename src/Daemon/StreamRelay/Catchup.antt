-- ===== src/Daemon/StreamRelay/Catchup.antt =====
-- What src/daemon/stream_relay.go promises: the next update of the generation, none skipped.
use prompto.Prelude.{
  ◌⊎◌, ◌≢◌, ℕ, zero, suc, ◌+◌, ◌-◌, ◌<◌, ◌≤◌, ◌≡◌, refl, sym, subst, ◌∙◌, inl, inr, true, false,
  List, [], ◌∷◌, some, arith, if◌then◌else◌, eqb, eqb_iff, length, get_elem?, set, Bool-cases,
  dec_lt,
}
use prompto.Prelude.Outcome.{done, ◌>>=◌}
use prompto.Daemon.UpdateHub.{
  UpdateSnapshot, SessionUpdateHub, State, Channel, empty_channel, subscribe,
}
use prompto.Daemon.UpdateHub.Notify.{contains, Fresh, Fresh-set, delivered}
use prompto.Daemon.UpdateHub.History.{IsKept, sequence-get_elem?}
use prompto.Daemon.UpdateHub.Split.{chans}
use prompto.Daemon.UpdateHub.Invariant.{IsValid, subscribe-IsValid}
use prompto.Daemon.StreamRelay.{
  Event, next, ended, waiting, receive, value, waits, accepts, advance, relay_next,
}

-- An update of the generation that the stream follows; 0 stands for any.
abbrev pub IsOwn : ℕ → UpdateSnapshot → Type 0
IsOwn render_id s = (render_id ≡ 0) ⊎ ((s.render_id ≡ 0) ⊎ (s.render_id ≡ render_id))

abbrev pub IsOfAnother : ℕ → UpdateSnapshot → Type 0
IsOfAnother render_id s = (render_id ≢ 0) × (s.render_id ≢ 0) × (s.render_id ≢ render_id)

accepts-IsOwn :
    (render_id : ℕ) (s : UpdateSnapshot) → accepts render_id s ≡ true → IsOwn render_id s
unfolding accepts
accepts-IsOwn render_id s h = ground arith

accepts-IsOfAnother :
    (render_id : ℕ) (s : UpdateSnapshot) → accepts render_id s ≡ false → IsOfAnother render_id s
unfolding accepts
accepts-IsOfAnother render_id s h = ground arith

-- No update held with a number above `lo` and below `hi` is of the generation.
abbrev pub NoneBetween : SessionUpdateHub → ℕ → ℕ → ℕ → Type 0
NoneBetween hub render_id lo hi =
    (i : ℕ) (s : UpdateSnapshot)
    → get_elem? hub.updates i ≡ some s
    → lo < s.sequence
    → s.sequence < hi
    → IsOfAnother render_id s

-- What `Next` comes to on a hub that has the updates already.
abbrev pub Caught : SessionUpdateHub → ℕ → ℕ → Event → Type 0
Caught hub after render_id (next s) =
    ((i : ℕ) × (get_elem? hub.updates i ≡ some s))
    × (after < s.sequence)
    × IsOwn render_id s
    × NoneBetween hub render_id after s.sequence
Caught hub after render_id ended = ⊥
Caught hub after render_id (waiting ch seen) =
    (hub.sequence ≤ seen) × NoneBetween hub render_id after (hub.sequence + 1)

some_ne : {s : UpdateSnapshot} → some empty_channel ≡ some (delivered s) → ⊥
some_ne h = cc

not-contains-delivered :
    (cs : List Channel) (is : List ℕ) (i : ℕ) (s : UpdateSnapshot)
    → Fresh cs is
    → get_elem? cs i ≡ some (delivered s)
    → contains i is ≡ false
not-contains-delivered cs [] i s f h = refl
not-contains-delivered cs (j ∷ js) i s f h = elim (Bool-cases (eqb j i)) [
  | inl same ↦ absurd (
      some_ne
        (sym f.0 ∙ subst (λ m. get_elem? cs m ≡ some (delivered s)) (sym ((eqb_iff j i).0 same)) h))
  | inr other ↦ rw other (not-contains-delivered cs js i s f.2 h)
]

-- Two entries of one number are one entry.
unique :
    (n : ℕ) (us : List UpdateSnapshot) (i j : ℕ) (s t : UpdateSnapshot)
    → IsKept n us
    → get_elem? us i ≡ some s
    → get_elem? us j ≡ some t
    → s.sequence ≡ t.sequence
    → s ≡ t
unique n us i j s t k hs ht e =
    let (qs, ls) = sequence-get_elem? n us i s k hs in
    let (qt, lt) = sequence-get_elem? n us j t k ht in
    let same : i ≡ j = omega arith in
    let ht' : get_elem? us i ≡ some t = subst (λ m. get_elem? us m ≡ some t) (sym same) ht in cc

-- Taking the update out of a channel that was answered.
drained : State → ℕ → UpdateSnapshot → State
drained st ch s = record st {
  channels = set st.channels ch (record { buffer = []; closed = true });
}

drained-hub : (st : State) (ch : ℕ) (s : UpdateSnapshot) → (drained st ch s).hub ≡ st.hub
unfolding drained
drained-hub st ch s = refl

fuel_enough :
    (fuel : ℕ) (hub hub' : SessionUpdateHub) (after after' : ℕ)
    → hub' ≡ hub
    → (after < after') × (after < hub.sequence)
    → hub.sequence - after < suc fuel
    → hub'.sequence - after' < fuel
fuel_enough fuel hub hub' after after' e h f =
    subst (λ (x : SessionUpdateHub). x.sequence - after' < fuel) (sym e) (omega arith)

receive-delivered :
    (st : State) (ch : ℕ) (s : UpdateSnapshot)
    → get_elem? st.channels ch ≡ some (delivered s)
    → receive st ch ≡ value s (drained st ch s)
unfolding receive drained
receive-delivered st ch s h = rw (h, receive)

receive-empty :
    (st : State) (ch : ℕ) → get_elem? st.channels ch ≡ some empty_channel → receive st ch ≡ waits
unfolding receive
receive-empty st ch h = rw (h, receive)

drained-IsValid :
    (st : State) (ch : ℕ) (s : UpdateSnapshot)
    → IsValid st
    → get_elem? st.channels ch ≡ some (delivered s)
    → IsValid (drained st ch s)
unfolding drained
drained-IsValid st ch s v h = record {
  kept = v.kept;
  waiting = v.waiting;
  fresh =
      Fresh-set st.channels ch (record { buffer = []; closed = true }) (chans (st.hub.waiters))
        (not-contains-delivered st.channels (chans (st.hub.waiters)) ch s v.fresh h) v.fresh;
}

NoneBetween-join :
    (hub : SessionUpdateHub) (render_id lo hi : ℕ) (i : ℕ) (s : UpdateSnapshot)
    → IsKept hub.sequence hub.updates
    → get_elem? hub.updates i ≡ some s
    → IsOfAnother render_id s
    → NoneBetween hub render_id lo s.sequence
    → NoneBetween hub render_id s.sequence hi
    → NoneBetween hub render_id lo hi
NoneBetween-join hub render_id lo hi i s k h skip below above j t ht l u =
    elim (dec_lt t.sequence s.sequence) [
      | yes less ↦ below j t ht l less
      | no notless ↦ elim (dec_lt s.sequence t.sequence) [
        | yes more ↦ above j t ht more u
        | no notmore ↦
            subst (λ x. IsOfAnother render_id x)
              (unique hub.sequence hub.updates i j s t k h ht (omega arith)) skip
      ]
    ]

-- An update that is passed over, and what comes after it.
Caught-after :
    (hub : SessionUpdateHub) (after render_id : ℕ) (i : ℕ) (s : UpdateSnapshot) (e : Event)
    → IsKept hub.sequence hub.updates
    → get_elem? hub.updates i ≡ some s
    → after < s.sequence
    → IsOfAnother render_id s
    → NoneBetween hub render_id after s.sequence
    → Caught hub s.sequence render_id e
    → Caught hub after render_id e
Caught-after hub after render_id i s (next t) k h lt skip gap c =
    (c.0, omega arith, c.2, NoneBetween-join hub render_id after t.sequence i s k h skip gap c.3)
Caught-after hub after render_id i s ended k h lt skip gap c = c
Caught-after hub after render_id i s (waiting ch seen) k h lt skip gap c =
    (c.0, NoneBetween-join hub render_id after (hub.sequence + 1) i s k h skip gap c.1)

relay_waits :
    (fuel : ℕ) (st st1 : State) (after render_id ch : ℕ)
    → subscribe st after ≡ done (ch, st1)
    → receive st1 ch ≡ waits
    → relay_next (suc fuel) st after render_id ≡ done (waiting ch after, st1)
unfolding relay_next
relay_waits fuel st st1 after render_id ch e h = rw (e, ◌>>=◌) (rw h)

relay_value :
    (fuel : ℕ) (st st1 st2 : State) (after render_id ch : ℕ) (s : UpdateSnapshot)
    → subscribe st after ≡ done (ch, st1)
    → receive st1 ch ≡ value s st2
    → relay_next (suc fuel) st after render_id ≡ (
        if accepts render_id s
        then done (next s, st2)
        else relay_next fuel st2 (advance after s) render_id)
unfolding relay_next
relay_value fuel st st1 st2 after render_id ch s e h = rw (e, ◌>>=◌) (rw h)

-- On a valid hub, with fuel for the updates that the stream has not seen, `Next` neither panics nor
-- runs out. It returns the first update held that is newer than `after` and of the generation, skipping no such
-- update, or it waits and there is none. The hub stays valid.
pub relay_next-Caught :
    (fuel : ℕ) (st : State) (after render_id : ℕ)
    → IsValid st
    → st.hub.sequence - after < fuel
    → (e : Event) × (st' : State) × (relay_next fuel st after render_id ≡ done (e, st'))
      × IsValid st'
      × Caught st.hub after render_id e
unfolding relay_next
relay_next-Caught zero st after render_id v f = absurd (omega arith)
relay_next-Caught (suc fuel) st after render_id v f =
    let (st1, e, v1, sub) = subscribe-IsValid st after v in
    elim sub [
      | inl (seen, empty, joined, same, num) ↦ (
        waiting (length st.channels) after,
        st1,
        relay_waits fuel st st1 after render_id (length st.channels) e
            (receive-empty st1 (length st.channels) empty),
        v1,
        (seen, λ i s h lo hi. absurd (omega arith)),
      )
      | inr (s, new, full, q, held, same) ↦
          let ch = length st.channels in
          let st2 = drained st1 ch s in
          let v2 = drained-IsValid st1 ch s v1 full in
          let step =
            relay_value fuel st st1 st2 after render_id ch s e (receive-delivered st1 ch s full) in
          let gap : NoneBetween st.hub render_id after s.sequence = λ i t h lo hi.
            absurd
              (omega (arith, sequence-get_elem? st.hub.sequence st.hub.updates i t v.kept h)) in
          elim (Bool-cases (accepts render_id s)) [
            | inl ours ↦ (
              next s,
              st2,
              step ∙ rw ours,
              v2,
              (
                (s.sequence - (st.hub.sequence + 1 - length (st.hub.updates)), held),
                omega arith,
                accepts-IsOwn render_id s ours,
                gap,
              ),
            )
            | inr skip ↦
                let hub_same : st2.hub ≡ st.hub = drained-hub st1 ch s ∙ same in
                let far : advance after s ≡ s.sequence = ground (arith, q) in
                let (ev, st3, e3, v3, c3) =
                  relay_next-Caught fuel st2 (advance after s) render_id v2 (
                    fuel_enough fuel st.hub st2.hub after (advance after s) hub_same (omega arith)
                      f) in
                (
                  ev,
                  st3,
                  step ∙ rw skip e3,
                  v3,
                  Caught-after st.hub after render_id _ s ev v.kept held (omega arith)
                      (accepts-IsOfAnother render_id s skip) gap
                      (subst (λ n. Caught st.hub n render_id ev) far
                        (subst (λ h. Caught h (advance after s) render_id ev) hub_same c3)),
                )
          ]
    ]
