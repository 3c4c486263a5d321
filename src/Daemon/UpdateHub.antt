-- ===== src/Daemon/UpdateHub.antt =====
-- src/daemon/update_hub.go: the history of updates of one session, and its blocked subscribers.
-- A channel is an address into a list of channels; `make(chan UpdateSnapshot, 1)` appends one.
-- A method is one critical section of the hub's mutex; the sends that `Publish` makes after it
-- only touch channels that the hub has already forgotten.
pub mod Notify
pub mod History
pub mod Split
pub mod Invariant
pub mod Runs
use prompto.Prelude.{
  ℕ, suc, ◌+◌, ◌-◌, ◌*◌, ◌%◌, ◌^◌, ◌≡◌, Bool, true, false, List, [], ◌∷◌, ◌++◌, Option, none, some,
  String, if◌then◌else◌, ltb, leb, eqb, length, get_elem?, set, drop,
}
use prompto.Prelude.Int.{pos, ◌-ℤ◌, max_zero, int_of_u64}
use prompto.Prelude.Outcome.{Outcome, done, panic, stuck, ◌>>=◌}

pub record UpdateSnapshot : Type 0 where
  pub payload : String
  pub render_id : ℕ
  pub sequence : ℕ

pub record UpdateWaiter : Type 0 where
  pub ch : ℕ
  pub after : ℕ

pub record SessionUpdateHub : Type 0 where
  pub waiters : List UpdateWaiter
  pub updates : List UpdateSnapshot
  pub sequence : ℕ

-- A channel of capacity one.
pub record Channel : Type 0 where
  pub buffer : List UpdateSnapshot
  pub closed : Bool

-- The hub, with the channels that it has made.
pub record State : Type 0 where
  pub hub : SessionUpdateHub
  pub channels : List Channel

abbrev pub history_limit : ℕ
history_limit = 64

-- `uint64` arithmetic wraps.
abbrev pub u64 : ℕ → ℕ
u64 n = n % 2 ^ 64

abbrev pub empty_channel : Channel
empty_channel = record { buffer = []; closed = false }

unfoldable pub new_session_update_hub : SessionUpdateHub
new_session_update_hub = record { waiters = []; updates = []; sequence = 0 }

-- `ch <- s`: a panic on a closed channel, a wait on a full one.
send_to : Channel → UpdateSnapshot → Outcome Channel
send_to c s =
    if c.closed
    then panic
    else elim c.buffer [ [] ↦ done (record c { buffer = s ∷ [] }) | x ∷ xs ↦ stuck ]

-- `close(ch)`: a panic on a closed channel.
close_it : Channel → Outcome Channel
close_it c = if c.closed then panic else done (record c { closed = true })

on_channel : (Channel → Outcome Channel) → ℕ → List Channel → Outcome (List Channel)
on_channel f i cs = elim (get_elem? cs i) [
  | none ↦ stuck
  | some c ↦ f c >>= λ c'. done (set cs i c')
]

-- The loop over `ready`.
pub notify : List ℕ → UpdateSnapshot → List Channel → Outcome (List Channel)
unfolding send_to close_it on_channel
notify [] s cs = done cs
notify (i ∷ is) s cs = on_channel (λ c. send_to c s) i cs >>= λ cs'.
    on_channel close_it i cs' >>= λ cs''. notify is s cs''

-- The waiters whose channel is notified, and those that stay.
pub split_waiters : ℕ → List UpdateWaiter → List ℕ × List UpdateWaiter
split_waiters n [] = ([], [])
split_waiters n (w ∷ ws) =
    let (ready, pending) = split_waiters n ws in
    if ltb w.after n then (w.ch ∷ ready, pending) else (ready, w ∷ pending)

-- The cap on the history.
pub trim : List UpdateSnapshot → List UpdateSnapshot
trim us = if ltb (2 * history_limit) (length us) then drop (length us - history_limit) us else us

abbrev first_id : List ℕ → ℕ
first_id [] = 0
first_id (id ∷ ids) = id

abbrev pub next_snapshot : SessionUpdateHub → String → List ℕ → UpdateSnapshot
next_snapshot hub payload ids = record {
  payload = payload;
  render_id = first_id ids;
  sequence = u64 (hub.sequence + 1);
}

unfoldable pub publish : State → String → List ℕ → Outcome (UpdateSnapshot × State)
unfolding notify split_waiters trim
publish st payload ids =
    let snapshot = next_snapshot st.hub payload ids in
    let (ready, pending) = split_waiters snapshot.sequence st.hub.waiters in
    notify ready snapshot st.channels >>= λ cs. done (
      snapshot,
      record {
        hub = record {
          waiters = pending;
          updates = trim (st.hub.updates ++ snapshot ∷ []);
          sequence = snapshot.sequence;
        };
        channels = cs;
      },
    )

unfoldable pub sequence : SessionUpdateHub → ℕ
sequence hub = hub.sequence

-- An index that is out of range panics.
abbrev at : List UpdateSnapshot → ℕ → Outcome (Option UpdateSnapshot)
at us i = elim (get_elem? us i) [ none ↦ panic | some s ↦ done (some s) ]

unfoldable pub last : SessionUpdateHub → Outcome (Option UpdateSnapshot)
last hub = if eqb hub.sequence 0 then done none else at hub.updates (length hub.updates - 1)

-- The successor's position, `max(len(hub.updates)-int(hub.sequence-after), 0)`.
pub next_index : SessionUpdateHub → ℕ → ℕ
unfolding ◌-ℤ◌
next_index hub after =
    max_zero (pos (length hub.updates) -ℤ int_of_u64 (u64 (hub.sequence + 2 ^ 64 - after)))

unfoldable pub next_after_locked : SessionUpdateHub → ℕ → Outcome (Option UpdateSnapshot)
unfolding next_index
next_after_locked hub after =
    if leb hub.sequence after then done none else at hub.updates (next_index hub after)

-- The address of the channel that the subscriber reads.
unfoldable pub subscribe : State → ℕ → Outcome (ℕ × State)
unfolding next_after_locked send_to close_it
subscribe st after =
    let channel = length st.channels in
    next_after_locked st.hub after >>= λ found. elim found [
      | some s ↦ send_to empty_channel s >>= λ c.
          close_it c >>= λ c'. done (channel, record st { channels = st.channels ++ c' ∷ [] })
      | none ↦ done (
        channel,
        record {
          hub = record (st.hub) {
            waiters = st.hub.waiters ++ record { ch = channel; after = after } ∷ [];
          };
          channels = st.channels ++ empty_channel ∷ [];
        },
      )
    ]
