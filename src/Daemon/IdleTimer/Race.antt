-- ===== src/Daemon/IdleTimer/Race.antt =====
-- The two sections of `registerSessionPID` in src/daemon/daemon.go, with an exit between them.
use prompto.Prelude.{
  ℕ, ◌≡◌, sym, ap, ◌∙◌, subst, inl, inr, Bool-cases, true, false, List, [], ◌∷◌, String, arith, eqb,
  eqb_iff,
}
use prompto.Prelude.Dict.{lookup, insert, delete}
use prompto.Prelude.Int.{ℤ, is_pos}
use prompto.Daemon.ProcessTracker.{new_process_tracker, register, unregister, count}
use prompto.Daemon.IdleTimer.Liveness.{callback_stale}
use prompto.Daemon.IdleTimer.{
  Daemon, new_daemon, register_section, unregister_session, cancel_idle_stop_locked, fire,
  schedule_idle_stop_locked, has_timer, drop_timer,
}

-- The session exits before the daemon cancels its timer.
abbrev pub raced : ℤ → ℕ → String → Daemon
raced timeout pid shell =
    cancel_idle_stop_locked
      (unregister_session (register_section (new_daemon timeout) pid shell) pid)

abbrev pub fire_all : Daemon → List ℕ → Daemon
fire_all d [] = d
fire_all d (t ∷ ts) = fire_all (fire d t) ts

raced_lem :
    (timeout : ℤ) (pid : ℕ) (shell : String)
    → is_pos timeout ≡ true
    → (count (raced timeout pid shell).sessions ≡ 0)
      × ((raced timeout pid shell).stopped ≡ false)
      × ((raced timeout pid shell).idle_token ≡ 3)
      × ((raced timeout pid shell).timers ≡ 2 ∷ 1 ∷ [])
unfolding cancel_idle_stop_locked unregister_session register_section new_daemon
    schedule_idle_stop_locked register unregister count new_process_tracker lookup insert delete
raced_lem timeout pid shell h = ground (arith, eqb_iff pid pid)

-- No timer is of the current token.
abbrev Lost : Daemon → Type 0
Lost d = (d.stopped ≡ false) × (has_timer d.idle_token d.timers ≡ false)

has_timer-drop_timer :
    (a b : ℕ) (ts : List ℕ) → has_timer a ts ≡ false → has_timer a (drop_timer b ts) ≡ false
has_timer-drop_timer a b [] h = h
has_timer-drop_timer a b (t ∷ ts) h = ground (arith, has_timer-drop_timer a b ts)

other_token :
    (a b : ℕ) (ts : List ℕ) → has_timer a ts ≡ false → has_timer b ts ≡ true → eqb a b ≡ false
other_token a b [] h k = cc
other_token a b (t ∷ ts) h k =
    ground (arith, other_token a b ts, eqb_iff t a, eqb_iff t b, eqb_iff a b)

fire-Lost : (d : Daemon) (token : ℕ) → Lost d → Lost (fire d token)
unfolding fire
fire-Lost d token (live, none_left) = elim (Bool-cases (has_timer token d.timers)) [
  | inr absent ↦ rw absent (live, none_left)
  | inl present ↦
      let d' : Daemon = record d { timers = drop_timer token d.timers } in
      rw present (
        subst Lost
          (sym
            (callback_stale d' token (other_token d.idle_token token d.timers none_left present)))
          (live, has_timer-drop_timer d.idle_token token d.timers none_left))
]

fire_all-Lost : (d : Daemon) (tokens : List ℕ) → Lost d → Lost (fire_all d tokens)
fire_all-Lost d [] l = l
fire_all-Lost d (t ∷ ts) l = fire_all-Lost (fire d t) ts (fire-Lost d t l)

-- Let the first session of a new daemon, whose idle timeout is positive, exit after its registration
-- and before the daemon cancels the idle timer. Then no session is tracked, and whichever timers fire
-- afterwards, in any order, the daemon is not stopped.
pub raced-fire_all :
    (timeout : ℤ) (pid : ℕ) (shell : String) (tokens : List ℕ)
    → is_pos timeout ≡ true
    → (count (raced timeout pid shell).sessions ≡ 0)
      × ((fire_all (raced timeout pid shell) tokens).stopped ≡ false)
raced-fire_all timeout pid shell tokens h =
    let (empty, live, token, timers) = raced_lem timeout pid shell h in
    (
      empty,
      (fire_all-Lost (raced timeout pid shell) tokens (
        live,
        ap (λ t. has_timer t (raced timeout pid shell).timers) token ∙ ap (has_timer 3) timers,
      )).0,
    )
