-- ===== src/Daemon/StreamRelay.antt =====
-- src/daemon/stream_relay.go: how one stream reads the next update of its render generation.
-- The model runs `Next` until it has an update or blocks in its `select`: a wait ends when the hub
-- answers the channel, or when the context is done.
pub mod Catchup
use prompto.Prelude.{
  ℕ, zero, suc, Bool, true, false, ◌||◌, List, [], ◌∷◌, Option, none, some, if◌then◌else◌, ltb, eqb,
  get_elem?, set,
}
use prompto.Prelude.Outcome.{Outcome, done, panic, stuck, ◌>>=◌}
use prompto.Daemon.UpdateHub.{UpdateSnapshot, Channel, State, subscribe}

-- A receive from a channel.
pub data Received : Type 0 where
  value : UpdateSnapshot → State → Received
  closed_empty : Received
  waits : Received

from_channel : Channel → State → ℕ → Received
from_channel c st ch = elim c.buffer [
  | s ∷ rest ↦ value s (record st { channels = set st.channels ch (record c { buffer = rest }) })
  | [] ↦ if c.closed then closed_empty else waits
]

unfoldable pub receive : State → ℕ → Received
unfolding from_channel
receive st ch = elim (get_elem? st.channels ch) [ none ↦ waits | some c ↦ from_channel c st ch ]

-- What a call comes to: an update, `UpdateSnapshot{}, false`, or a wait on a channel.
pub data Event : Type 0 where
  next : UpdateSnapshot → Event
  ended : Event
  waiting : ℕ → ℕ → Event

-- The filter that keeps updates of other render generations out of the stream.
unfoldable pub accepts : ℕ → UpdateSnapshot → Bool
accepts render_id s = eqb render_id 0 || eqb s.render_id 0 || eqb s.render_id render_id

abbrev pub advance : ℕ → UpdateSnapshot → ℕ
advance after s = if ltb after s.sequence then s.sequence else after

-- The loop of `Next`; running out of fuel is `stuck`.
unfoldable pub relay_next : ℕ → State → ℕ → ℕ → Outcome (Event × State)
relay_next zero st after render_id = stuck
relay_next (suc fuel) st after render_id = subscribe st after >>= λ r. elim (receive r.1 r.0) [
  | value s st' ↦
      let again = relay_next fuel st' (advance after s) render_id in
      if accepts render_id s then done (next s, st') else again
  | closed_empty ↦ done (ended, r.1)
  | waits ↦ done (waiting r.0 after, r.1)
]
