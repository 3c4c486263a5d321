-- ===== src/Daemon/ReloadGate/Invariant.antt =====
-- Mutual exclusion of src/daemon/reload_gate.go, for any number of threads and any interleaving.
use prompto.Prelude.{
  ℕ, ◌+◌, ◌≤◌, ◌<◌, ◌≡◌, refl, Bool, true, false, List, [], ◌∷◌, map, none, some, arith,
  if◌then◌else◌, ltb, get_elem?, set, count_p, count_p-set, count_p-map, ◌↔◌, ◌⊎◌, replicate,
  count_p-replicate, Option-cases, Bool-cases, inl, inr,
}
use prompto.Daemon.ReloadGate.{
  ReloadGate, new_reload_gate, Thread, Call, Section, System, idle, requesting, request_asleep,
  running, claiming, claim_asleep, draining, drain_asleep, acting, start_request, begin_reload,
  thread_step, wake, after_section, step, run,
}

-- Holds a request.
abbrev pub is_running : Thread → Bool
is_running running = true
is_running _ = false

-- Has set `reloading`.
abbrev pub is_reloader : Thread → Bool
is_reloader draining = true
is_reloader drain_asleep = true
is_reloader acting = true
is_reloader _ = false

abbrev pub is_acting : Thread → Bool
is_acting acting = true
is_acting _ = false

-- Sleeps until `reloading` falls.
abbrev pub sleeps_at_gate : Thread → Bool
sleeps_at_gate request_asleep = true
sleeps_at_gate claim_asleep = true
sleeps_at_gate _ = false

-- Sleeps until `active` falls to 0.
abbrev pub sleeps_at_drain : Thread → Bool
sleeps_at_drain drain_asleep = true
sleeps_at_drain _ = false

abbrev pub is_draining : Thread → Bool
is_draining draining = true
is_draining _ = false

-- A reloader waits for requests, asleep or not, or acts.
pub reloader_parts :
    (ts : List Thread)
    → count_p is_acting ts + count_p sleeps_at_drain ts + count_p is_draining ts
      ≡ count_p is_reloader ts
reloader_parts [] = refl
reloader_parts (t ∷ ts) = ground (arith, reloader_parts ts)

-- The counters are exact, a reload acts alone, and whoever sleeps has a reason to.
pub record Counted (g : ReloadGate) (ts : List Thread) : Type 0 where
  pub requests : g.active ≡ count_p is_running ts
  pub reloads : (if g.reloading then 1 else 0) ≡ count_p is_reloader ts
  pub alone : 0 < count_p is_acting ts → g.active ≡ 0
  pub gate_sleep : 0 < count_p sleeps_at_gate ts → g.reloading ≡ true
  pub drain_sleep : 0 < count_p sleeps_at_drain ts → 0 < g.active

-- What one thread's change does to a count.
abbrev Moves : (Thread → Bool) → List Thread → ℕ → Thread → Thread → Type 0
Moves p ts i t t' =
    count_p p (set ts i t') + count_p p (t ∷ []) ≡ count_p p ts + count_p p (t' ∷ [])

moves :
    (ts : List Thread) (i : ℕ) (t t' : Thread)
    → get_elem? ts i ≡ some t
    → Moves is_running ts i t t'
      × Moves is_reloader ts i t t'
      × Moves is_acting ts i t t'
      × Moves sleeps_at_gate ts i t t'
      × Moves sleeps_at_drain ts i t t'
      × Moves is_draining ts i t t'
      × (count_p is_acting ts + count_p sleeps_at_drain ts + count_p is_draining ts
          ≡ count_p is_reloader ts)
moves ts i t t' h = (
  count_p-set is_running ts i t' t h,
  count_p-set is_reloader ts i t' t h,
  count_p-set is_acting ts i t' t h,
  count_p-set sleeps_at_gate ts i t' t h,
  count_p-set sleeps_at_drain ts i t' t h,
  count_p-set is_draining ts i t' t h,
  reloader_parts ts,
)

sleep_Counted :
    (g : ReloadGate) (ts : List Thread) (i : ℕ)
    → Counted g ts
    → get_elem? ts i ≡ some draining
    → ltb 0 g.active ≡ true
    → Counted g (set ts i drain_asleep)
sleep_Counted g ts i k h busy = ground (arith, moves ts i draining drain_asleep h)

act_Counted :
    (g : ReloadGate) (ts : List Thread) (i : ℕ)
    → Counted g ts
    → get_elem? ts i ≡ some draining
    → ltb 0 g.active ≡ false
    → Counted g (set ts i acting)
act_Counted g ts i k h free = ground (arith, moves ts i draining acting h)

set-Counted :
    (g : ReloadGate) (ts : List Thread) (i : ℕ) (t : Thread) (c : Call)
    → Counted g ts
    → get_elem? ts i ≡ some t
    → let r = thread_step g t c in r.broadcast ≡ false → Counted r.gate (set ts i r.thread)
unfolding thread_step
set-Counted g ts i idle start_request k h b = ground (arith, moves ts i idle requesting h)
set-Counted g ts i idle begin_reload k h b = ground (arith, moves ts i idle claiming h)
set-Counted g ts i requesting c k h b =
    ground (arith, moves ts i requesting running h, moves ts i requesting request_asleep h)
set-Counted g ts i running c k h b = cc
set-Counted g ts i claiming c k h b = ground (
  arith,
  moves ts i claiming claim_asleep h,
  moves ts i claiming drain_asleep h,
  moves ts i claiming acting h,
)
set-Counted g ts i draining c k h b = elim (Bool-cases (ltb 0 g.active)) [
  | inl busy ↦ rw busy (sleep_Counted g ts i k h busy)
  | inr free ↦ rw free (act_Counted g ts i k h free)
]
set-Counted g ts i acting c k h b = cc
set-Counted g ts i request_asleep c k h b =
    ground (arith, moves ts i request_asleep request_asleep h)
set-Counted g ts i claim_asleep c k h b = ground (arith, moves ts i claim_asleep claim_asleep h)
set-Counted g ts i drain_asleep c k h b = ground (arith, moves ts i drain_asleep drain_asleep h)

-- A section that broadcasts, before it wakes the sleepers.
record Waking (g : ReloadGate) (ts : List Thread) : Type 0 where
  requests : g.active ≡ count_p is_running ts
  reloads : (if g.reloading then 1 else 0) ≡ count_p is_reloader ts
  alone : 0 < count_p is_acting ts → g.active ≡ 0

set-Waking :
    (g : ReloadGate) (ts : List Thread) (i : ℕ) (t : Thread) (c : Call)
    → Counted g ts
    → get_elem? ts i ≡ some t
    → let r = thread_step g t c in r.broadcast ≡ true → Waking r.gate (set ts i r.thread)
unfolding thread_step
set-Waking g ts i idle start_request k h b = cc
set-Waking g ts i idle begin_reload k h b = cc
set-Waking g ts i requesting c k h b = ground arith
set-Waking g ts i running c k h b = ground (arith, moves ts i running idle h)
set-Waking g ts i claiming c k h b = ground arith
set-Waking g ts i draining c k h b = ground arith
set-Waking g ts i acting c k h b = ground (arith, moves ts i acting idle h)
set-Waking g ts i request_asleep c k h b = cc
set-Waking g ts i claim_asleep c k h b = cc
set-Waking g ts i drain_asleep c k h b = cc

awake_gate : (ts : List Thread) → count_p sleeps_at_gate (map wake ts) ≡ 0
awake_gate [] = refl
awake_gate (t ∷ ts) = ground (arith, awake_gate ts)

awake_drain : (ts : List Thread) → count_p sleeps_at_drain (map wake ts) ≡ 0
awake_drain [] = refl
awake_drain (t ∷ ts) = ground (arith, awake_drain ts)

wake-Counted : (g : ReloadGate) (ts : List Thread) → Waking g ts → Counted g (map wake ts)
wake-Counted g ts w = ground (
  arith,
  awake_gate ts,
  awake_drain ts,
  count_p-map is_running wake ts (λ t. ground arith),
  count_p-map is_reloader wake ts (λ t. ground arith),
  count_p-map is_acting wake ts (λ t. ground arith),
)

after-Counted :
    (s : System) (i : ℕ) (r : Section)
    → (r.broadcast ≡ false → Counted r.gate (set s.threads i r.thread))
    → (r.broadcast ≡ true → Waking r.gate (set s.threads i r.thread))
    → Counted (after_section s i r).gate (after_section s i r).threads
unfolding after_section
after-Counted s i r quiet loud = elim (Bool-cases r.broadcast) [
  | inl b ↦ rw b (wake-Counted r.gate (set s.threads i r.thread) (loud b))
  | inr b ↦ rw b (quiet b)
]

step-missing : (s : System) (i : ℕ) (c : Call) → get_elem? s.threads i ≡ none → step s (i, c) ≡ s
unfolding step
step-missing s i c h = rw (h, step)

step-after :
    (s : System) (i : ℕ) (c : Call) (t : Thread)
    → get_elem? s.threads i ≡ some t
    → step s (i, c) ≡ after_section s i (thread_step s.gate t c)
unfolding step
step-after s i c t h = rw (h, step)

-- Every step of every thread keeps the counts.
pub step-Counted :
    (s : System) (e : ℕ × Call)
    → Counted s.gate s.threads
    → Counted (step s e).gate (step s e).threads
step-Counted s (i, c) k = elim (Option-cases (get_elem? s.threads i)) [
  | inl missing ↦ rw (step-missing s i c missing) k
  | inr (t, h) ↦ rw (step-after s i c t h) (
      after-Counted s i (thread_step s.gate t c) (set-Counted s.gate s.threads i t c k h)
        (set-Waking s.gate s.threads i t c k h))
]

pub run-Counted :
    (s : System) (es : List (ℕ × Call))
    → Counted s.gate s.threads
    → Counted (run s es).gate (run s es).threads
unfolding run
run-Counted s [] k = k
run-Counted s (e ∷ es) k = run-Counted (step s e) es (step-Counted s e k)

-- A new gate with `n` threads that have not used it yet.
abbrev pub init : ℕ → System
init n = record { gate = new_reload_gate; threads = replicate n idle }

pub init-Counted : (n : ℕ) → Counted (init n).gate (init n).threads
unfolding new_reload_gate
init-Counted n = ground (
  arith,
  count_p-replicate is_running n idle refl,
  count_p-replicate is_reloader n idle refl,
  count_p-replicate is_acting n idle refl,
  count_p-replicate sleeps_at_gate n idle refl,
  count_p-replicate sleeps_at_drain n idle refl,
)

-- After any interleaving of any number of threads: the gate's counter is the number of requests
-- held, at most one thread reloads, its flag is set exactly while one does, and while a reload
-- acts no request is held.
pub run-exclusive :
    (n : ℕ) (es : List (ℕ × Call))
    → let s = run (init n) es in
      (s.gate.active ≡ count_p is_running s.threads)
      × (count_p is_reloader s.threads ≤ 1)
      × ((s.gate.reloading ≡ true) ↔ (count_p is_reloader s.threads ≡ 1))
      × ((count_p is_acting s.threads ≡ 0) ⊎ (count_p is_running s.threads ≡ 0))
run-exclusive n es = ground (arith, run-Counted (init n) es (init-Counted n))
