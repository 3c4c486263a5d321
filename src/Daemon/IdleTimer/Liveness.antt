-- ===== src/Daemon/IdleTimer/Liveness.antt =====
-- That a daemon without sessions will stop.
use prompto.Daemon.ProcessTracker.{
  new_session, Session, ProcessTracker, count, unregister, register, on_empty, on_unregister,
}
use prompto.Daemon.ProcessTracker.Accounting.{unregister_told, pos-insert}
use prompto.Daemon.IdleTimer.{
  idle_daemon, eqb, Callback, Daemon, next_token, schedule_idle_stop_locked,
  cancel_idle_stop_locked, unregister_session, register_session_pid, has_timer, drop_timer, fire,
  timer_callback, stop, told_empty, complete_session, start_render_session,
  schedule_idle_if_no_sessions, new_daemon,
}
use prompto.Prelude.Dict.{Dict, lookup}
use prompto.Prelude.Int.{ℤ, is_pos}
use prompto.Prelude.{
  if◌then◌else◌, nat_comparable, Option-cases, Option, String, none, some, [], ◌∷◌, inl, inr,
  Bool-cases, length, ◌<◌, ◌⊎◌, eqb_iff, sym, ap, subst, ◌∙◌, arith, true, false, ◌≢◌, List, ℕ, ◌≡◌,
}

-- A daemon that has not stopped, and may stop, tracks a session or has a timer of the current token.
abbrev pub WillStop : Daemon → Type 0
WillStop d =
    (d.stopped ≡ true)
    ⊎ ((is_pos d.idle_timeout ≡ false)
        ⊎ ((0 < count d.sessions) ⊎ (has_timer d.idle_token d.timers ≡ true)))

schedule-WillStop : (d : Daemon) → WillStop (schedule_idle_stop_locked d)
unfolding schedule_idle_stop_locked
schedule-WillStop d = ground (arith, eqb_iff (next_token d) (next_token d))

told_empty-told :
    (before : List Callback) (pid : ℕ)
    → told_empty before (on_empty ∷ on_unregister pid ∷ before) ≡ true
told_empty-told before pid = ground arith

-- The daemon with what `Unregister` leaves, when the callbacks schedule nothing.
quiet-WillStop :
    (d : Daemon) (pid : ℕ)
    → told_empty d.sessions.called (unregister d.sessions pid).called ≡ false
    → WillStop d
    → WillStop (record d { sessions = unregister d.sessions pid })
unfolding count
quiet-WillStop d pid quiet w = elim (unregister_told d.sessions pid) [
  | inl same ↦ rw same w
  | inr (inl left) ↦ inr (inr (inl left))
  | inr (inr told) ↦ absurd (
      true_ne (
        sym (told_empty-told d.sessions.called pid)
        ∙ ap (told_empty d.sessions.called) (sym told)
        ∙ quiet))
]
  where
    true_ne : true ≡ false → ⊥
    true_ne e = cc

unregister-WillStop : (d : Daemon) (pid : ℕ) → WillStop d → WillStop (unregister_session d pid)
unfolding unregister_session
unregister-WillStop d pid w =
    elim (Bool-cases (told_empty d.sessions.called (unregister d.sessions pid).called)) [
      | inl told ↦ rw told (schedule-WillStop (record d { sessions = unregister d.sessions pid }))
      | inr quiet ↦ rw quiet (quiet-WillStop d pid quiet w)
    ]

pos-register : (t : ProcessTracker) (pid : ℕ) (shell : String) → 0 < count (register t pid "" shell)
unfolding register count lookup
pos-register t pid shell = elim (Option-cases (lookup pid t.sessions)) [
  | inl missing ↦ rw (missing, register) (pos-insert pid (new_session t pid "" shell) t.sessions)
  | inr (s, h) ↦ rw (h, register) (pos-lookup pid s t.sessions h)
]
  where
    none_ne : {x : Session} → ◌≡◌ {A = Option Session} none (some x) → ⊥
    none_ne e = cc

    pos-lookup : (k : ℕ) (s : Session) (m : Dict ℕ Session) → lookup k m ≡ some s → 0 < length m
    pos-lookup k s [] h = absurd (none_ne h)
    pos-lookup k s (e ∷ m) h = omega arith

register-WillStop :
    (d : Daemon) (pid : Option ℕ) (shell : String)
    → WillStop d
    → WillStop (register_session_pid d pid shell)
unfolding register_session_pid
register-WillStop d none shell w = w
register-WillStop d (some pid) shell w = inr (inr (inl (pos-register d.sessions pid shell)))

has_timer-drop :
    (a b : ℕ) (ts : List ℕ) → a ≢ b → has_timer a ts ≡ true → has_timer a (drop_timer b ts) ≡ true
has_timer-drop a b [] n h = cc
has_timer-drop a b (t ∷ ts) n h = ground (arith, has_timer-drop a b ts n, eqb_iff t a, eqb_iff t b)

pub callback_stale :
    (d : Daemon) (token : ℕ) → eqb d.idle_token token ≡ false → timer_callback d token ≡ d
unfolding timer_callback
callback_stale d token h = ground arith

callback_busy : (d : Daemon) (token : ℕ) → 0 < count d.sessions → timer_callback d token ≡ d
unfolding timer_callback
callback_busy d token h = ground (arith, eqb_iff (count d.sessions) 0)

callback_stops :
    (d : Daemon) (token : ℕ)
    → eqb d.idle_token token ≡ true
    → eqb (count d.sessions) 0 ≡ true
    → (timer_callback d token).stopped ≡ true
unfolding timer_callback stop cancel_idle_stop_locked
callback_stops d token h e = ground arith

stale-WillStop :
    (d : Daemon) (token : ℕ)
    → d.idle_token ≢ token
    → WillStop d
    → WillStop (record d { timers = drop_timer token d.timers })
stale-WillStop d token n (inl over) = inl over
stale-WillStop d token n (inr (inl off)) = inr (inl off)
stale-WillStop d token n (inr (inr (inl busy))) = inr (inr (inl busy))
stale-WillStop d token n (inr (inr (inr h))) =
    inr (inr (inr (has_timer-drop d.idle_token token d.timers n h)))

callback-WillStop :
    (d : Daemon) (token : ℕ)
    → WillStop d
    → WillStop (timer_callback (record d { timers = drop_timer token d.timers }) token)
callback-WillStop d token w =
    let d' : Daemon = record d { timers = drop_timer token d.timers } in
    elim (Bool-cases (eqb d.idle_token token)) [
      | inr stale ↦
          subst WillStop (sym (callback_stale d' token stale))
            (stale-WillStop d token (ground (arith, eqb_iff d.idle_token token)) w)
      | inl current ↦ elim (Bool-cases (eqb (count d.sessions) 0)) [
        | inl empty ↦ inl (callback_stops d' token current empty)
        | inr busy ↦
            let tracked : 0 < count d.sessions = ground (arith, eqb_iff (count d.sessions) 0) in
            subst WillStop (sym (callback_busy d' token tracked)) (inr (inr (inl tracked)))
      ]
    ]

fire-WillStop : (d : Daemon) (token : ℕ) → WillStop d → WillStop (fire d token)
unfolding fire
fire-WillStop d token w = elim (Bool-cases (has_timer token d.timers)) [
  | inr absent ↦ rw absent w
  | inl present ↦ rw present (callback-WillStop d token w)
]

-- What happens to the daemon, as far as the timer is concerned; a render registers its process in
-- one step.
pub data Event : Type 0 where
  renders : Option ℕ → String → Event
  completes : Option ℕ → Event
  fires : ℕ → Event
  stops : Event

abbrev pub step : Daemon → Event → Daemon
step d (renders pid shell) = start_render_session d pid shell
step d (completes pid) = complete_session d pid
step d (fires token) = fire d token
step d stops = stop d

abbrev pub run : Daemon → List Event → Daemon
run d [] = d
run d (e ∷ es) = run (step d e) es

unless_stopped : (d d' : Daemon) → WillStop d → WillStop d' → WillStop (if d.stopped then d else d')
unless_stopped d d' w w' = elim (Bool-cases d.stopped) [
  | inl over ↦ subst WillStop (sym (chosen d d' over)) w
  | inr live ↦ subst WillStop (sym (other d d' live)) w'
]
  where
    chosen : (a b : Daemon) → a.stopped ≡ true → (if a.stopped then a else b) ≡ a
    chosen a b h = ground arith

    other : (a b : Daemon) → a.stopped ≡ false → (if a.stopped then a else b) ≡ b
    other a b h = ground arith

quiet_schedule-WillStop : (d : Daemon) → WillStop d → WillStop (schedule_idle_if_no_sessions d)
unfolding schedule_idle_if_no_sessions
quiet_schedule-WillStop d w = elim (Bool-cases (eqb (count d.sessions) 0)) [
  | inl empty ↦ rw empty (schedule-WillStop d)
  | inr busy ↦ rw busy w
]

stop-stopped : (d : Daemon) → (stop d).stopped ≡ true
unfolding stop cancel_idle_stop_locked
stop-stopped d = ground arith

step-WillStop : (d : Daemon) (e : Event) → WillStop d → WillStop (step d e)
unfolding start_render_session complete_session schedule_idle_if_no_sessions
step-WillStop d (renders pid shell) w =
    unless_stopped d (register_session_pid d pid shell) w (register-WillStop d pid shell w)
step-WillStop d (completes none) w =
    unless_stopped d (schedule_idle_if_no_sessions d) w (quiet_schedule-WillStop d w)
step-WillStop d (completes (some pid)) w =
    unless_stopped d (unregister_session d pid) w (unregister-WillStop d pid w)
step-WillStop d (fires token) w = fire-WillStop d token w
step-WillStop d stops w = inl (stop-stopped d)

run-WillStop : (d : Daemon) (es : List Event) → WillStop d → WillStop (run d es)
run-WillStop d [] w = w
run-WillStop d (e ∷ es) w = run-WillStop (step d e) es (step-WillStop d e w)

-- In any run whose renders each register their process in one step, a daemon that is to stop when
-- idle has stopped, tracks a session, or has a timer that will stop it: the one of the current token.
pub run-new-WillStop : (timeout : ℤ) (es : List Event) → WillStop (run (new_daemon timeout) es)
unfolding new_daemon
run-new-WillStop timeout es =
    run-WillStop (new_daemon timeout) es (schedule-WillStop (idle_daemon timeout))
