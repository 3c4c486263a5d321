-- ===== src/Daemon/Tests.antt =====
-- The theorems about the update hub, the relay and the reload gate at concrete inputs, and runs of
-- their definitions.
use prompto.Prelude.{
  ◌++◌, count_p, ℕ, ◌≤◌, ◌≡◌, refl, true, List, [], ◌∷◌, some, arith, string_comparable, get_elem?,
  ◌↔◌, ◌⊎◌, All,
}
use prompto.Prelude.Outcome.{done}
use prompto.Daemon.UpdateHub.{UpdateSnapshot, State, empty_channel, publish, last, next_snapshot}
use prompto.Daemon.UpdateHub.Notify.{contains}
use prompto.Daemon.UpdateHub.Split.{chans}
use prompto.Daemon.UpdateHub.Invariant.{IsValid, Answered, publish-IsValid}
use prompto.Daemon.StreamRelay.{Event, relay_next}
use prompto.Daemon.StreamRelay.Catchup.{Caught, relay_next-Caught}
use prompto.Daemon.ReloadGate.{
  Thread, step, requesting, Call, start_request, begin_reload, acting, request_asleep, idle, run,
  new_reload_gate,
}
use prompto.Daemon.ReloadGate.Invariant.{init, is_running, is_reloader, is_acting, run-exclusive}
use prompto.Daemon.ReloadGate.Progress.{is_working, run_progress}

abbrev git_done : UpdateSnapshot
git_done = record { payload = "git"; render_id = 7; sequence = 1 }

-- One update published, and one subscriber that has seen it.
abbrev waiting_hub : State
waiting_hub = record {
  hub = record {
    waiters = record { ch = 0; after = 1 } ∷ [];
    updates = git_done ∷ [];
    sequence = 1;
  };
  channels = empty_channel ∷ [];
}

waiting_hub-IsValid : IsValid waiting_hub
waiting_hub-IsValid = record {
  kept = record {
    contiguous = omega arith;
    fits = omega arith;
    keeps = omega arith;
    bounded = omega arith;
    in_range = omega arith;
  };
  waiting = omega arith;
  fresh = (refl, refl, tt);
}

publish-IsValid_example :
    let s = next_snapshot waiting_hub.hub "path" (7 ∷ []) in
    (st' : State) × (publish waiting_hub "path" (7 ∷ []) ≡ done (s, st'))
    × (s.sequence ≡ 2)
    × (st'.hub.sequence ≡ s.sequence)
    × (last st'.hub ≡ done (some s))
    × IsValid st'
    × All (Answered s st') (waiting_hub.hub.waiters)
    × ((i : ℕ)
        → (contains i (chans (waiting_hub.hub.waiters)) ≡ true)
          ⊎ (get_elem? st'.channels i ≡ get_elem? waiting_hub.channels i))
publish-IsValid_example =
    publish-IsValid waiting_hub "path" (7 ∷ []) waiting_hub-IsValid (omega arith)

relay_next-Caught_example :
    (e : Event) × (st' : State) × (relay_next 2 waiting_hub 0 7 ≡ done (e, st'))
    × IsValid st'
    × Caught waiting_hub.hub 0 7 e
relay_next-Caught_example = relay_next-Caught 2 waiting_hub 0 7 waiting_hub-IsValid (omega arith)

-- A request runs, a reload waits for it, and a second request waits for the reload.
abbrev contention : List (ℕ × Call)
contention =
    (0, start_request)
    ∷ (0, start_request)
    ∷ (1, begin_reload)
    ∷ (1, begin_reload)
    ∷ (2, start_request)
    ∷ (2, start_request)
    ∷ []

run-exclusive_example :
    let s = run (init 3) contention in
    (s.gate.active ≡ count_p is_running s.threads)
    × (count_p is_reloader s.threads ≤ 1)
    × ((s.gate.reloading ≡ true) ↔ (count_p is_reloader s.threads ≡ 1))
    × ((count_p is_acting s.threads ≡ 0) ⊎ (count_p is_running s.threads ≡ 0))
run-exclusive_example = run-exclusive 3 contention

run_progress_example :
    (j : ℕ) × (u : Thread) × (get_elem? (run (init 3) contention).threads j ≡ some u)
    × (is_working u ≡ true)
unfolding run step new_reload_gate
run_progress_example = run_progress 3 contention 2 request_asleep refl refl

-- The reload acts once the request is over.
reload_acts :
    (run (init 3) (contention ++ (0, start_request) ∷ (1, start_request) ∷ [])).threads
    ≡ idle ∷ acting ∷ requesting ∷ []
unfolding run step new_reload_gate
reload_acts = refl
