-- ===== src/Daemon/IdleTimer.antt =====
-- The idle timer of src/daemon/daemon.go: when the daemon stops itself.
-- `timers` holds the tokens of the `time.AfterFunc` calls that have not run. The callbacks of the
-- process tracker run inside `Unregister`, as they do under its lock; of what they do, the timer's
-- part is here. `parseSessionPID` is an argument: the process of a session, if its id is a number.
pub mod Liveness
pub mod Race
use prompto.Prelude.{
  ℕ, zero, suc, ◌+◌, ◌%◌, ◌^◌, Bool, true, false, not, ◌&&◌, ◌||◌, List, [], ◌∷◌, Option, none,
  some, String, if◌then◌else◌, ltb, eqb, length,
}
use prompto.Prelude.Int.{ℤ, is_pos}
use prompto.Daemon.ProcessTracker.{
  ProcessTracker, Callback, on_empty, on_unregister, new_process_tracker, register, unregister,
  count,
}

pub record Daemon : Type 0 where
  pub sessions : ProcessTracker
  pub idle_timeout : ℤ
  pub idle_token : ℕ
  pub timers : List ℕ
  pub stopped : Bool

abbrev pub next_token : Daemon → ℕ
next_token d = (d.idle_token + 1) % 2 ^ 64

unfoldable pub cancel_idle_stop_locked : Daemon → Daemon
cancel_idle_stop_locked d = record d { idle_token = next_token d }

unfoldable pub schedule_idle_stop_locked : Daemon → Daemon
schedule_idle_stop_locked d =
    if is_pos d.idle_timeout
    then record d { idle_token = next_token d; timers = next_token d ∷ d.timers }
    else d

-- The daemon before its timer starts.
abbrev pub idle_daemon : ℤ → Daemon
idle_daemon timeout = record {
  sessions = new_process_tracker;
  idle_timeout = timeout;
  idle_token = 0;
  timers = [];
  stopped = false;
}

-- The end of `NewWithIdleTimeoutAndDeviceCache`.
unfoldable pub new_daemon : ℤ → Daemon
unfolding schedule_idle_stop_locked
new_daemon timeout = schedule_idle_stop_locked (idle_daemon timeout)

-- The two sections of `registerSessionPID`: the tracker's lock, and the daemon's.
unfoldable pub register_section : Daemon → ℕ → String → Daemon
unfolding register
register_section d pid shell = record d { sessions = register d.sessions pid "" shell }

unfoldable pub register_session_pid : Daemon → Option ℕ → String → Daemon
unfolding register_section cancel_idle_stop_locked
register_session_pid d none shell = d
register_session_pid d (some pid) shell = cancel_idle_stop_locked (register_section d pid shell)

-- The part of `StartRender` that concerns the timer.
unfoldable pub start_render_session : Daemon → Option ℕ → String → Daemon
unfolding register_session_pid
start_render_session d pid shell = if d.stopped then d else register_session_pid d pid shell

-- Whether the calls made since include `onEmpty`, which comes last.
abbrev pub told_empty : List Callback → List Callback → Bool
told_empty before [] = false
told_empty before (on_empty ∷ calls) = ltb (length before) (suc (length calls))
told_empty before (on_unregister pid ∷ calls) = false

-- `sessions.Unregister`, with `onAllSessionsEnded`.
unfoldable pub unregister_session : Daemon → ℕ → Daemon
unfolding unregister schedule_idle_stop_locked
unregister_session d pid =
    let t = unregister d.sessions pid in
    let d' = record d { sessions = t } in
    if told_empty d.sessions.called t.called then schedule_idle_stop_locked d' else d'

unfoldable pub schedule_idle_if_no_sessions : Daemon → Daemon
unfolding schedule_idle_stop_locked count
schedule_idle_if_no_sessions d = if eqb (count d.sessions) 0 then schedule_idle_stop_locked d else d

-- `CompleteSession`.
unfoldable pub complete_session : Daemon → Option ℕ → Daemon
unfolding unregister_session schedule_idle_if_no_sessions
complete_session d none = if d.stopped then d else schedule_idle_if_no_sessions d
complete_session d (some pid) = if d.stopped then d else unregister_session d pid

-- `stop`, without the watchers that it closes.
unfoldable pub stop : Daemon → Daemon
unfolding cancel_idle_stop_locked
stop d = if d.stopped then d else cancel_idle_stop_locked (record d { stopped = true })

abbrev pub has_timer : ℕ → List ℕ → Bool
has_timer token [] = false
has_timer token (t ∷ ts) = eqb t token || has_timer token ts

abbrev pub drop_timer : ℕ → List ℕ → List ℕ
drop_timer token [] = []
drop_timer token (t ∷ ts) = let rest = drop_timer token ts in if eqb t token then ts else t ∷ rest

-- The function that `scheduleIdleStopLocked` hands to `time.AfterFunc`.
unfoldable pub timer_callback : Daemon → ℕ → Daemon
unfolding stop count
timer_callback d token =
    if d.stopped || not (eqb d.idle_token token)
    then d
    else if eqb (count d.sessions) 0
    then stop d
    else d

-- A timer runs; a number that names none does nothing.
unfoldable pub fire : Daemon → ℕ → Daemon
unfolding timer_callback
fire d token =
    if has_timer token d.timers
    then timer_callback (record d { timers = drop_timer token d.timers }) token
    else d
