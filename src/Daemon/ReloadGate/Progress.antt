-- ===== src/Daemon/ReloadGate/Progress.antt =====
-- No thread of src/daemon/reload_gate.go sleeps for nothing.
use prompto.Prelude.{
  ℕ, ◌+◌, ◌<◌, ◌≡◌, refl, Bool, true, false, List, [], ◌∷◌, some, arith, get_elem?, count_p,
  count_p-pos, pos-count_p,
}
use prompto.Daemon.ReloadGate.{
  ReloadGate, Thread, Call, request_asleep, running, claim_asleep, draining, drain_asleep, acting,
  run,
}
use prompto.Daemon.ReloadGate.Invariant.{
  is_running, is_acting, is_draining, sleeps_at_gate, sleeps_at_drain, Counted, reloader_parts,
  run-Counted, init, init-Counted,
}

abbrev pub is_asleep : Thread → Bool
is_asleep request_asleep = true
is_asleep claim_asleep = true
is_asleep drain_asleep = true
is_asleep _ = false

-- A thread whose own next step ends a request or a reload, or takes one that waits for it further.
abbrev pub is_working : Thread → Bool
is_working running = true
is_working draining = true
is_working acting = true
is_working _ = false

asleep_parts :
    (ts : List Thread)
    → count_p is_asleep ts ≡ count_p sleeps_at_gate ts + count_p sleeps_at_drain ts
asleep_parts [] = refl
asleep_parts (t ∷ ts) = ground (arith, asleep_parts ts)

working_parts :
    (ts : List Thread)
    → count_p is_working ts ≡ count_p is_running ts + count_p is_draining ts + count_p is_acting ts
working_parts [] = refl
working_parts (t ∷ ts) = ground (arith, working_parts ts)

working_of_asleep :
    (g : ReloadGate) (ts : List Thread)
    → Counted g ts
    → 0 < count_p is_asleep ts
    → 0 < count_p is_working ts
working_of_asleep g ts k h = ground (arith, asleep_parts ts, working_parts ts, reloader_parts ts)

-- Whenever a thread sleeps, after any interleaving, a thread that is awake holds a request, drains
-- or acts: no wake-up is lost and the gate never deadlocks.
pub run_progress :
    (n : ℕ) (es : List (ℕ × Call)) (i : ℕ) (t : Thread)
    → get_elem? (run (init n) es).threads i ≡ some t
    → is_asleep t ≡ true
    → (j : ℕ) × (u : Thread) × (get_elem? (run (init n) es).threads j ≡ some u)
      × (is_working u ≡ true)
run_progress n es i t h a =
    let s = run (init n) es in
    count_p-pos is_working s.threads (
      working_of_asleep s.gate s.threads (run-Counted (init n) es (init-Counted n))
        (pos-count_p is_asleep s.threads i t h a))
