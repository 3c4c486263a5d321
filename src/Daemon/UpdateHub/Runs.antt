-- ===== src/Daemon/UpdateHub/Runs.antt =====
-- Whole lives of a hub of src/daemon/update_hub.go.
use prompto.Prelude.{
  ap, inr, inl, min, ℕ, suc, ◌+◌, ◌^◌, ◌≤◌, ◌<◌, ◌≡◌, refl, List, [], ◌∷◌, String, arith, length,
}
use prompto.Prelude.Outcome.{Outcome, done, ◌>>=◌}
use prompto.Daemon.UpdateHub.{
  SessionUpdateHub, State, new_session_update_hub, publish, subscribe, history_limit,
}
use prompto.Daemon.UpdateHub.Invariant.{Subscribed, IsValid, publish-IsValid, subscribe-IsValid}

pub data Call : Type 0 where
  publishes : String → List ℕ → Call
  subscribes : ℕ → Call

abbrev pub call : State → Call → Outcome State
call st (publishes payload ids) = publish st payload ids >>= λ r. done r.1
call st (subscribes after) = subscribe st after >>= λ r. done r.1

abbrev pub calls : State → List Call → Outcome State
calls st [] = done st
calls st (c ∷ cs) = call st c >>= λ st'. calls st' cs

abbrev pub new_state : State
new_state = record { hub = new_session_update_hub; channels = [] }

-- How many updates were published.
abbrev pub published_by : List Call → ℕ
published_by [] = 0
published_by (publishes payload ids ∷ cs) = suc (published_by cs)
published_by (subscribes after ∷ cs) = published_by cs

pub new-IsValid : IsValid new_state
unfolding new_session_update_hub
new-IsValid = record {
  kept = record {
    contiguous = tt;
    fits = omega arith;
    keeps = omega arith;
    bounded = omega arith;
    in_range = omega arith;
  };
  waiting = tt;
  fresh = tt;
}

unmoved :
    (st st' : State) (after : ℕ) → Subscribed st after st' → st'.hub.sequence ≡ st.hub.sequence
unmoved st st' after (inl (_, _, _, _, e)) = e
unmoved st st' after (inr (_, _, _, _, _, e)) = ap (λ (h : SessionUpdateHub). h.sequence) e

calls-IsValid :
    (st : State) (cs : List Call)
    → IsValid st
    → st.hub.sequence + length cs < 2 ^ 63
    → (st' : State) × (calls st cs ≡ done st')
      × IsValid st'
      × (st'.hub.sequence ≡ st.hub.sequence + published_by cs)
calls-IsValid st [] v lt = (st, refl, v, omega arith)
calls-IsValid st (publishes payload ids ∷ cs) v lt =
    let (st1, e, q, q1, _, v1, _, _) = publish-IsValid st payload ids v (omega arith) in
    let (st2, e2, v2, q2) = calls-IsValid st1 cs v1 (omega arith) in
    (st2, rw (e, ◌>>=◌) e2, v2, omega arith)
calls-IsValid st (subscribes after ∷ cs) v lt =
    let (st1, e, v1, sub) = subscribe-IsValid st after v in
    let same : st1.hub.sequence ≡ st.hub.sequence = unmoved st st1 after sub in
    let (st2, e2, v2, q2) = calls-IsValid st1 cs v1 (omega arith) in
    (st2, rw (e, ◌>>=◌) e2, v2, omega arith)

-- A hub that starts empty serves any calls, fewer than 2 ^ 63 of them, with no panic and no wait.
-- Its sequence number is then the number of updates published, and it holds the newest of them: no
-- more than 128, and all or at least 64.
pub calls-new_lem :
    (cs : List Call)
    → length cs < 2 ^ 63
    → (st : State) × (calls new_state cs ≡ done st)
      × (st.hub.sequence ≡ published_by cs)
      × (length (st.hub.updates) ≤ 128)
      × (min (published_by cs) history_limit ≤ length (st.hub.updates))
unfolding new_session_update_hub
calls-new_lem cs lt =
    let (st, e, v, q) = calls-IsValid new_state cs new-IsValid (omega arith) in
    (st, e, omega arith, v.kept.bounded, omega (arith, v.kept.keeps))
