-- ===== src/Daemon/StoreTests.antt =====
-- The theorems about the device cache, the hub store, the process tracker and the toggles at
-- concrete inputs.
use prompto.Daemon.IdleTimer.{new_daemon}
use prompto.Daemon.IdleTimer.Liveness.{WillStop, run-new-WillStop, renders, completes, fires}
use prompto.Daemon.IdleTimer.Liveness
use prompto.Daemon.ProcessTracker.{count}
use prompto.Daemon.IdleTimer.Race.{raced, fire_all, raced-fire_all}
use prompto.Prelude.{
  refl, string_comparable, nat_comparable, ◌∷◌, Option, ◌+◌, ℕ, true, some, none, false, [], List,
  ◌≡◌,
}
use prompto.Prelude.Dict.{lookup}
use prompto.Prelude.Int.{pos}
use prompto.Daemon.DeviceCache.{
  expire_section, read_section, SegmentRenderValue, DeviceCacheEntry, DeviceCache, set,
}
use prompto.Daemon.DeviceCache.Expiry.{get_race, found}
use prompto.Daemon.SessionStore.{PromptSessionStore, IsValid}
use prompto.Daemon.ProcessTracker.{new_process_tracker, register, unregister, watch_process}
use prompto.Daemon.ProcessTracker.Accounting.{
  registers, watcher_returns, run, run-new-balance, stale_watcher, unregistered, is_tracked,
  accepted, one_if, Event,
}
use prompto.Daemon.Toggles.{Toggles, ToggleMap}

abbrev git_segment : SegmentRenderValue
git_segment = record {
  rendered_at = pos 100;
  text = "main";
  foreground = "white";
  background = "blue";
}

abbrev one_entry : DeviceCache
one_entry = record {
  entries = ("k", record { expires_at = pos 200; value = git_segment; infinite = false }) ∷ [];
  default_ttl = pos 50;
}

abbrev over_at_200 : DeviceCacheEntry
over_at_200 = record { expires_at = pos 200; value = git_segment; infinite = false }

get_race_example :
    (found (set one_entry "k" git_segment (pos 0) (pos 201)) "k" (pos 201) ≡ some git_segment)
    × (found
          (expire_section
            (set one_entry "k" git_segment (pos 0) (pos 201))
            "k"
            (read_section one_entry "k" (pos 201)).1)
          "k"
          (pos 201)
        ≡ none)
unfolding lookup
get_race_example = get_race one_entry "k" over_at_200 git_segment (pos 0) (pos 201) refl refl

abbrev no_hubs : PromptSessionStore
no_hubs = record { registry = none; hubs = []; next_hub = 3 }

no_hubs-IsValid : IsValid no_hubs
unfolding lookup
no_hubs-IsValid = record {
  made = λ i h e. absurd (none_ne e);
  own = λ i j h e f. absurd (none_ne e);
}
  where
    none_ne : {h : ℕ} → ◌≡◌ {A = Option ℕ} none (some h) → ⊥
    none_ne e = cc

-- A shell registers twice, exits, and registers again.
abbrev shell_restart : List Event
shell_restart =
    registers 7 "u" "zsh" ∷ registers 7 "u" "zsh" ∷ watcher_returns 7 ∷ registers 7 "u" "zsh" ∷ []

run-new-balance_example :
    unregistered (run new_process_tracker shell_restart) 7
      + one_if (is_tracked (run new_process_tracker shell_restart) 7)
    ≡ accepted new_process_tracker 7 shell_restart
run-new-balance_example = run-new-balance 7 shell_restart

stale_watcher_example :
    let t' = register (unregister (register new_process_tracker 7 "u" "zsh") 7) 7 "u" "zsh" in
    (lookup 7 t'.sessions ≡ some (record { cancel = 1; uuid = "u"; shell = "zsh"; pid = 7 }))
    × (t'.watchers ≡ record { ctx = 1; pid = 7 } ∷ record { ctx = 0; pid = 7 } ∷ [])
    × (t'.cancelled ≡ 0 ∷ [])
    × (lookup 7 (watch_process t' 7).sessions ≡ none)
unfolding new_process_tracker lookup
stale_watcher_example = stale_watcher new_process_tracker 7 "u" "zsh" refl

-- What the toggle cache of the session store holds.
abbrev stored_toggles : ToggleMap
stored_toggles = ("node", true) ∷ ("path", false) ∷ []

abbrev one_session : Toggles
one_session = record {
  config_path = "a.yaml";
  segment_toggles = ("s", ("git", true) ∷ []) ∷ [];
  seeded_toggles = [];
}

run-new-WillStop_example : WillStop (
    Liveness.run
      (new_daemon (pos 300))
      (renders (some 7) "zsh" ∷ completes (some 7) ∷ fires 3 ∷ []))
run-new-WillStop_example =
    run-new-WillStop (pos 300) (renders (some 7) "zsh" ∷ completes (some 7) ∷ fires 3 ∷ [])

raced-fire_all_example :
    (count (raced (pos 300) 7 "zsh").sessions ≡ 0)
    × ((fire_all (raced (pos 300) 7 "zsh") (1 ∷ 2 ∷ [])).stopped ≡ false)
raced-fire_all_example = raced-fire_all (pos 300) 7 "zsh" (1 ∷ 2 ∷ []) refl
