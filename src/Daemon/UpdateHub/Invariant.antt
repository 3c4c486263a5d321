-- ===== src/Daemon/UpdateHub/Invariant.antt =====
-- What holds of a hub and its channels between two calls of src/daemon/update_hub.go.
use mathlib.Core.List.{map-append}
use prompto.Prelude.{
  eqb, eqb_iff, ◌≢◌, ℕ, ◌+◌, ◌-◌, ◌^◌, ◌<◌, ◌≤◌, ◌≡◌, refl, ◌∙◌, sym, subst, ◌⊎◌, inl, inr, true,
  false, List, [], ◌∷◌, ◌++◌, some, String, arith, max, length, get_elem?, Bool-cases, All,
  get_elem?-append_left, get_elem?-length, All-append, get_elem?-lt-length,
}
use prompto.Prelude.Outcome.{done, ◌>>=◌}
use prompto.Daemon.UpdateHub.{
  at, last, UpdateSnapshot, UpdateWaiter, State, Channel, empty_channel, next_snapshot, trim,
  publish, subscribe,
}
use prompto.Daemon.UpdateHub.Notify.{
  contains, delivered, Fresh, deliver, notify-deliver, get_elem?-deliver,
}
use prompto.Daemon.UpdateHub.History.{last-trim, IsKept, trim-IsKept, next_after_locked_lem}
use prompto.Daemon.UpdateHub.Split.{
  chans, ready_of, pending_of, pending_waiting, contains-split, Fresh-ready, Goes, split-Goes,
  Fresh-split, split-Unnotified, Fresh-deliver,
}

-- The history is kept, each waiter has seen all of it, and its channel is open and empty.
pub record IsValid (st : State) : Type 0 where
  pub kept : IsKept (st.hub.sequence) (st.hub.updates)
  pub waiting : All (λ w. st.hub.sequence ≤ w.after) (st.hub.waiters)
  pub fresh : Fresh st.channels (chans (st.hub.waiters))

-- What a subscriber that waited finds: the update, on a closed channel, or nothing yet.
abbrev pub Answered : UpdateSnapshot → State → UpdateWaiter → Type 0
Answered s st w =
    ((w.after < s.sequence) × (get_elem? st.channels w.ch ≡ some (delivered s)))
    ⊎ ((s.sequence ≤ w.after)
        × (get_elem? st.channels w.ch ≡ some empty_channel)
        × (contains w.ch (chans (st.hub.waiters)) ≡ true))

Answered-of :
    (n : ℕ) (s : UpdateSnapshot) (st : State) (cs : List Channel) (ready : List ℕ)
    (ws : List UpdateWaiter)
    → s.sequence ≡ n
    → st.channels ≡ deliver ready s cs
    → Fresh cs ready
    → Fresh cs (chans ws)
    → All (Goes n ready (chans (st.hub.waiters))) ws
    → All (Answered s st) ws
Answered-of n s st cs ready [] e d r f g = tt
Answered-of n s st cs ready (w ∷ ws) e d r f g = (
  ground (arith, get_elem?-deliver ready s cs w.ch r, f.0, g.0),
  Answered-of n s st cs ready ws e d r f.2 g.1,
)

-- The state that `publish` leaves.
abbrev published : State → String → List ℕ → State
published st payload ids =
    let s = next_snapshot st.hub payload ids in
    record {
      hub = record {
        waiters = pending_of s.sequence st.hub.waiters;
        updates = trim (st.hub.updates ++ s ∷ []);
        sequence = s.sequence;
      };
      channels = deliver (ready_of s.sequence st.hub.waiters) s st.channels;
    }

publish-published :
    (st : State) (payload : String) (ids : List ℕ)
    → IsValid st
    → publish st payload ids ≡ done (next_snapshot st.hub payload ids, published st payload ids)
unfolding publish
publish-published st payload ids v =
    let s = next_snapshot st.hub payload ids in
    let ready = ready_of s.sequence st.hub.waiters in
    rw (
      notify-deliver ready s st.channels
        (Fresh-ready s.sequence st.channels st.hub.waiters v.fresh))

published-IsValid :
    (st : State) (payload : String) (ids : List ℕ)
    → IsValid st
    → st.hub.sequence + 1 < 2 ^ 63
    → IsValid (published st payload ids)
published-IsValid st payload ids v lt =
    let s = next_snapshot st.hub payload ids in
    let n : ℕ = s.sequence in
    let e : n ≡ st.hub.sequence + 1 = omega arith in
    let ready = Fresh-ready n st.channels st.hub.waiters v.fresh in
    record {
      kept =
          subst (λ m. IsKept m (trim (st.hub.updates ++ s ∷ []))) (sym e)
            (trim-IsKept st.hub.sequence st.hub.updates s v.kept lt e);
      waiting = pending_waiting n st.hub.waiters;
      fresh =
          Fresh-deliver (ready_of n st.hub.waiters) s st.channels (pending_of n st.hub.waiters)
            ready (split-Unnotified n st.channels st.hub.waiters v.fresh)
            (Fresh-split n st.channels st.hub.waiters v.fresh);
    }

last-published :
    (st : State) (payload : String) (ids : List ℕ)
    → (next_snapshot st.hub payload ids).sequence ≢ 0
    → last (published st payload ids).hub ≡ done (some (next_snapshot st.hub payload ids))
unfolding last
last-published st payload ids h =
    let s = next_snapshot st.hub payload ids in
    elim (Bool-cases (eqb s.sequence 0)) [
      | inl zeroth ↦ absurd (h ((eqb_iff s.sequence 0).0 zeroth))
      | inr later ↦ rw later (rw (last-trim st.hub.updates s, at))
    ]

published-others :
    (st : State) (payload : String) (ids : List ℕ)
    → Fresh st.channels (ready_of (next_snapshot st.hub payload ids).sequence st.hub.waiters)
    → (i : ℕ)
    → (contains i (chans (st.hub.waiters)) ≡ true)
      ⊎ (get_elem? (published st payload ids).channels i ≡ get_elem? st.channels i)
published-others st payload ids ready i =
    let s = next_snapshot st.hub payload ids in
    elim (Bool-cases (contains i (chans (st.hub.waiters)))) [
      | inl here ↦ inl here
      | inr away ↦ inr (
          get_elem?-deliver (ready_of s.sequence st.hub.waiters) s st.channels i ready
          ∙ rw (contains-split s.sequence st.hub.waiters i away).0)
    ]

-- On a valid hub that has published fewer than 2 ^ 63 - 1 updates `publish` succeeds: it sends on no
-- closed or full channel. It numbers the update next, makes it the last of the history, answers
-- exactly the waiters that have not seen it, leaves every other channel alone, and keeps the hub
-- valid.
pub publish-IsValid :
    (st : State) (payload : String) (ids : List ℕ)
    → IsValid st
    → st.hub.sequence + 1 < 2 ^ 63
    → let s = next_snapshot st.hub payload ids in
      (st' : State) × (publish st payload ids ≡ done (s, st'))
      × (s.sequence ≡ st.hub.sequence + 1)
      × (st'.hub.sequence ≡ s.sequence)
      × (last st'.hub ≡ done (some s))
      × IsValid st'
      × All (Answered s st') (st.hub.waiters)
      × ((i : ℕ)
          → (contains i (chans (st.hub.waiters)) ≡ true)
            ⊎ (get_elem? st'.channels i ≡ get_elem? st.channels i))
publish-IsValid st payload ids v lt =
    let s = next_snapshot st.hub payload ids in
    let n : ℕ = s.sequence in
    let ready = Fresh-ready n st.channels st.hub.waiters v.fresh in
    (
      published st payload ids,
      publish-published st payload ids v,
      omega arith,
      refl,
      last-published st payload ids (omega arith),
      published-IsValid st payload ids v lt,
      Answered-of n s (published st payload ids) st.channels (ready_of n st.hub.waiters)
          st.hub.waiters refl refl ready v.fresh (split-Goes n st.channels st.hub.waiters v.fresh),
      published-others st payload ids ready,
    )

Fresh-append :
    (cs : List Channel) (c : Channel) (is : List ℕ) → Fresh cs is → Fresh (cs ++ c ∷ []) is
Fresh-append cs c [] f = tt
Fresh-append cs c (i ∷ is) f =
    (get_elem?-append_left cs (c ∷ []) i f.0, f.1, Fresh-append cs c is f.2)

contains-snoc :
    (i j : ℕ) (is : List ℕ) → contains i is ≡ false → i < j → contains i (is ++ j ∷ []) ≡ false
contains-snoc i j [] h lt = ground arith
contains-snoc i j (k ∷ is) h lt = ground (arith, contains-snoc i j is)

-- A new waiter on a new channel.
Fresh-enroll :
    (cs : List Channel) (is : List ℕ)
    → Fresh cs is
    → Fresh (cs ++ empty_channel ∷ []) (is ++ length cs ∷ [])
Fresh-enroll cs [] f = (get_elem?-length cs empty_channel, refl, tt)
Fresh-enroll cs (i ∷ is) f = (
  get_elem?-append_left cs (empty_channel ∷ []) i f.0,
  contains-snoc i (length cs) is f.1 (get_elem?-lt-length cs i f.0),
  Fresh-enroll cs is f.2,
)

-- The state that a subscriber finds its channel in: closed with the next update, or waiting.
abbrev pub Subscribed : State → ℕ → State → Type 0
Subscribed st after st' =
    ((st.hub.sequence ≤ after)
      × (get_elem? st'.channels (length st.channels) ≡ some empty_channel)
      × (st'.hub.waiters ≡ st.hub.waiters ++ record { ch = length st.channels; after = after } ∷ [])
      × (st'.hub.updates ≡ st.hub.updates)
      × (st'.hub.sequence ≡ st.hub.sequence))
    ⊎ ((s : UpdateSnapshot) × (after < st.hub.sequence)
        × (get_elem? st'.channels (length st.channels) ≡ some (delivered s))
        × (s.sequence ≡ max (after + 1) (st.hub.sequence + 1 - length (st.hub.updates)))
        × (get_elem? st.hub.updates (s.sequence - (st.hub.sequence + 1 - length (st.hub.updates)))
            ≡ some s)
        × (st'.hub ≡ st.hub))

-- On a valid hub `subscribe` succeeds and keeps the hub valid. Its channel holds the oldest update held
-- that is newer than `after`, if there is one, and otherwise joins the waiters.
pub subscribe-IsValid :
    (st : State) (after : ℕ)
    → IsValid st
    → (st' : State) × (subscribe st after ≡ done (length st.channels, st'))
      × IsValid st'
      × Subscribed st after st'
unfolding subscribe
subscribe-IsValid st after v = elim (next_after_locked_lem st.hub after v.kept) [
  | inl (seen, e) ↦
      let w : UpdateWaiter = record { ch = length st.channels; after = after } in
      (
        record {
          hub = record (st.hub) { waiters = st.hub.waiters ++ w ∷ [] };
          channels = st.channels ++ empty_channel ∷ [];
        },
        rw (e, ◌>>=◌),
        record {
          kept = v.kept;
          waiting = All-append _ st.hub.waiters (w ∷ []) v.waiting (seen, tt);
          fresh =
              rw (map-append (λ (x : UpdateWaiter). x.ch) st.hub.waiters (w ∷ []))
                (Fresh-enroll st.channels (chans (st.hub.waiters)) v.fresh);
        },
        inl (seen, get_elem?-length st.channels empty_channel, refl, refl, refl),
      )
  | inr (s, new, e, q, held) ↦ (
    record st { channels = st.channels ++ delivered s ∷ [] },
    rw (e, ◌>>=◌),
    record {
      kept = v.kept;
      waiting = v.waiting;
      fresh = Fresh-append st.channels (delivered s) (chans (st.hub.waiters)) v.fresh;
    },
    inr (s, new, get_elem?-length st.channels (delivered s), q, held, refl),
  )
]
