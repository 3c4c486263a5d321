-- ===== src/Daemon/ReloadGate.antt =====
-- src/daemon/reload_gate.go: requests and config reloads exclude each other.
-- The threads that use a gate are a list; a step is one critical section of its mutex by one of
-- them. `cond.Wait` puts the thread to sleep with the mutex released, and `cond.Broadcast` wakes
-- every sleeper, which then takes its own step and tests its condition again.
pub mod Invariant
pub mod Progress
use prompto.Prelude.{
  ℕ, suc, ◌+◌, ◌-◌, Bool, true, false, List, [], ◌∷◌, map, Option, none, some, if◌then◌else◌, ltb,
  get_elem?, set,
}

pub record ReloadGate : Type 0 where
  pub active : ℕ
  pub reloading : Bool

unfoldable pub new_reload_gate : ReloadGate
new_reload_gate = record { active = 0; reloading = false }

-- Where a thread stands. `requesting` and `claiming` are at the test of `reloading`, `draining` is
-- at the test of `active`; the `asleep` states are in `cond.Wait` there. A `running` thread holds
-- a request, and an `acting` one is between `BeginReload` and `EndReload`.
pub data Thread : Type 0 where
  idle requesting request_asleep running claiming claim_asleep draining drain_asleep acting : Thread

-- What an idle thread calls next.
pub data Call : Type 0 where
  start_request begin_reload : Call

-- The gate, the thread, and whether the section broadcasts.
pub record Section : Type 0 where
  pub gate : ReloadGate
  pub thread : Thread
  pub broadcast : Bool

-- The loop's test and what follows it in `StartRequest`.
start_request_section : ReloadGate → Section
start_request_section g =
    if g.reloading
    then record { gate = g; thread = request_asleep; broadcast = false }
    else record { gate = record g { active = g.active + 1 }; thread = running; broadcast = false }

-- The function that `StartRequest` returns.
unfoldable pub release : ReloadGate → ReloadGate
release g = if ltb 0 g.active then record g { active = g.active - 1 } else g

release_section : ReloadGate → Section
unfolding release
release_section g = record { gate = release g; thread = idle; broadcast = true }

-- The second loop of `BeginReload`.
drain_section : ReloadGate → Section
drain_section g =
    if ltb 0 g.active
    then record { gate = g; thread = drain_asleep; broadcast = false }
    else record { gate = g; thread = acting; broadcast = false }

-- The first loop of `BeginReload`; the second follows in the same section.
begin_reload_section : ReloadGate → Section
unfolding drain_section
begin_reload_section g =
    if g.reloading
    then record { gate = g; thread = claim_asleep; broadcast = false }
    else drain_section (record g { reloading = true })

end_reload_section : ReloadGate → Section
end_reload_section g = record {
  gate = record g { reloading = false };
  thread = idle;
  broadcast = true;
}

abbrev call : ReloadGate → Call → Section
call g start_request = record { gate = g; thread = requesting; broadcast = false }
call g begin_reload = record { gate = g; thread = claiming; broadcast = false }

-- One step of a thread. A sleeper makes none.
thread_step : ReloadGate → Thread → Call → Section
unfolding start_request_section release_section drain_section begin_reload_section
    end_reload_section
thread_step g idle c = call g c
thread_step g requesting c = start_request_section g
thread_step g running c = release_section g
thread_step g claiming c = begin_reload_section g
thread_step g draining c = drain_section g
thread_step g acting c = end_reload_section g
thread_step g request_asleep c = record { gate = g; thread = request_asleep; broadcast = false }
thread_step g claim_asleep c = record { gate = g; thread = claim_asleep; broadcast = false }
thread_step g drain_asleep c = record { gate = g; thread = drain_asleep; broadcast = false }

-- `cond.Broadcast`.
abbrev pub wake : Thread → Thread
wake request_asleep = requesting
wake claim_asleep = claiming
wake drain_asleep = draining
wake idle = idle
wake requesting = requesting
wake running = running
wake claiming = claiming
wake draining = draining
wake acting = acting

pub record System : Type 0 where
  pub gate : ReloadGate
  pub threads : List Thread

after_section : System → ℕ → Section → System
after_section s i r = record {
  gate = r.gate;
  threads = if r.broadcast then map wake (set s.threads i r.thread) else set s.threads i r.thread;
}

-- A step of thread `i`; a number that names no thread changes nothing.
unfoldable pub step : System → ℕ × Call → System
unfolding thread_step after_section
step s (i, c) = elim (get_elem? s.threads i) [
  | none ↦ s
  | some t ↦ after_section s i (thread_step s.gate t c)
]

-- Any interleaving of the threads.
unfoldable pub run : System → List (ℕ × Call) → System
run s [] = s
run s (c ∷ cs) = run (step s c) cs
