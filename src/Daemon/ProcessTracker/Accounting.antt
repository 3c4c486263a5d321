-- ===== src/Daemon/ProcessTracker/Accounting.antt =====
-- How the callbacks of src/daemon/process_tracker.go account for the sessions.
use prompto.Prelude.{
  ℕ, suc, ◌+◌, ◌<◌, ◌≡◌, refl, sym, ◌∙◌, subst, ap, ◌⊎◌, inl, inr, Bool, true, false, List, [], ◌∷◌,
  none, some, String, arith, if◌then◌else◌, eqb, eqb_iff, length, nat_comparable, count_p,
  Option-cases, Bool-cases,
}
use prompto.Prelude.Dict.{
  Dict, is_some, lookup, insert, delete, lookup-insert, lookup-insert_self, lookup-delete,
  lookup-delete_self,
}
use prompto.Daemon.ProcessTracker.{
  new_session, Session, Callback, on_unregister, on_empty, ProcessTracker, new_process_tracker,
  register, drop_session, unregister_locked, unregister, watch_process,
}

pub data Event : Type 0 where
  registers : ℕ → String → String → Event
  unregisters : ℕ → Event
  watcher_returns : ℕ → Event

abbrev pub step : ProcessTracker → Event → ProcessTracker
step t (registers pid uuid shell) = register t pid uuid shell
step t (unregisters pid) = unregister t pid
step t (watcher_returns pid) = watch_process t pid

abbrev pub is_tracked : ProcessTracker → ℕ → Bool
is_tracked t pid = is_some (lookup pid t.sessions)

-- `onUnregister(pid)`.
abbrev pub is_unregister : ℕ → Callback → Bool
is_unregister pid (on_unregister p) = eqb p pid
is_unregister pid on_empty = false

-- A `Register` call of the process that was accepted.
abbrev pub accepts : ProcessTracker → ℕ → Event → Bool
accepts t pid (registers p uuid shell) =
    if eqb p pid then (if is_tracked t pid then false else true) else false
accepts t pid _ = false

abbrev pub one_if : Bool → ℕ
one_if true = 1
one_if false = 0

-- The accepted registrations of a process, along a run.
abbrev pub accepted : ProcessTracker → ℕ → List Event → ℕ
accepted t pid [] = 0
accepted t pid (e ∷ es) = one_if (accepts t pid e) + accepted (step t e) pid es

abbrev pub run : ProcessTracker → List Event → ProcessTracker
run t [] = t
run t (e ∷ es) = run (step t e) es

abbrev pub unregistered : ProcessTracker → ℕ → ℕ
unregistered t pid = count_p (is_unregister pid) t.called

unregister_locked-balance :
    (t : ProcessTracker) (p pid : ℕ)
    → unregistered (unregister_locked t p) pid + one_if (is_tracked (unregister_locked t p) pid)
      ≡ unregistered t pid + one_if (is_tracked t pid)
unfolding unregister_locked
unregister_locked-balance t p pid = ground (arith, lookup-delete p pid t.sessions, eqb_iff p pid)

register-balance :
    (t : ProcessTracker) (p pid : ℕ) (uuid shell : String)
    → unregistered (register t p uuid shell) pid + one_if (is_tracked (register t p uuid shell) pid)
      ≡ unregistered t pid
        + one_if (is_tracked t pid)
        + one_if (accepts t pid (registers p uuid shell))
unfolding register
register-balance t p pid uuid shell =
    ground (arith, lookup-insert p pid (new_session t p uuid shell) t.sessions, eqb_iff p pid)

watch_process_lem : (t : ProcessTracker) (pid : ℕ) → watch_process t pid ≡ unregister_locked t pid
unfolding watch_process
watch_process_lem t pid = ground arith

step-balance :
    (t : ProcessTracker) (pid : ℕ) (e : Event)
    → unregistered (step t e) pid + one_if (is_tracked (step t e) pid)
      ≡ unregistered t pid + one_if (is_tracked t pid) + one_if (accepts t pid e)
unfolding unregister
step-balance t pid (registers p uuid shell) = register-balance t p pid uuid shell
step-balance t pid (unregisters p) = omega (arith, unregister_locked-balance t p pid)
step-balance t pid (watcher_returns p) =
    rw (watch_process_lem t p) (omega (arith, unregister_locked-balance t p pid))

run-balance :
    (t : ProcessTracker) (pid : ℕ) (es : List Event)
    → unregistered (run t es) pid + one_if (is_tracked (run t es) pid)
      ≡ unregistered t pid + one_if (is_tracked t pid) + accepted t pid es
run-balance t pid [] = omega arith
run-balance t pid (e ∷ es) = omega (arith, run-balance (step t e) pid es, step-balance t pid e)

-- In any run each accepted registration of a process is answered by at most one `onUnregister` of
-- it: the accepted ones number the answered ones, plus one while the process is tracked.
pub run-new-balance :
    (pid : ℕ) (es : List Event)
    → unregistered (run new_process_tracker es) pid
        + one_if (is_tracked (run new_process_tracker es) pid)
      ≡ accepted new_process_tracker pid es
unfolding new_process_tracker lookup
run-new-balance pid es = omega (arith, run-balance new_process_tracker pid es)

-- With no session left, the last callback was `onEmpty`.
abbrev pub ToldEmpty : ProcessTracker → Type 0
ToldEmpty t =
    (0 < length t.sessions)
    ⊎ ((t.called ≡ []) ⊎ ((cs : List Callback) × (t.called ≡ on_empty ∷ cs)))

pub pos-insert : (p : ℕ) (s : Session) (m : Dict ℕ Session) → 0 < length (insert p s m)
unfolding insert
pos-insert p s [] = omega arith
pos-insert p s ((j, w) ∷ m) = ground arith

drop-ToldEmpty : (t : ProcessTracker) (p : ℕ) (s : Session) → ToldEmpty (drop_session t p s)
unfolding drop_session
drop-ToldEmpty t p s = elim (Bool-cases (eqb (length (delete p t.sessions)) 0)) [
  | inl empty ↦ rw empty (inr (inr (on_unregister p ∷ t.called, refl)))
  | inr left ↦ inl (ground arith)
]

unregister-ToldEmpty :
    (t : ProcessTracker) (p : ℕ) → ToldEmpty t → ToldEmpty (unregister_locked t p)
unfolding unregister_locked
unregister-ToldEmpty t p h = elim (Option-cases (lookup p t.sessions)) [
  | inl missing ↦ rw (missing, unregister_locked) h
  | inr (s, e) ↦ rw (e, unregister_locked) (drop-ToldEmpty t p s)
]

register-ToldEmpty :
    (t : ProcessTracker) (p : ℕ) (uuid shell : String)
    → ToldEmpty t
    → ToldEmpty (register t p uuid shell)
unfolding register
register-ToldEmpty t p uuid shell h = elim (Option-cases (lookup p t.sessions)) [
  | inl missing ↦
      rw (missing, register) (inl (pos-insert p (new_session t p uuid shell) t.sessions))
  | inr (s, e) ↦ rw (e, register) h
]

step-ToldEmpty : (t : ProcessTracker) (e : Event) → ToldEmpty t → ToldEmpty (step t e)
unfolding unregister
step-ToldEmpty t (registers p uuid shell) h = register-ToldEmpty t p uuid shell h
step-ToldEmpty t (unregisters p) h = unregister-ToldEmpty t p h
step-ToldEmpty t (watcher_returns p) h =
    subst ToldEmpty (sym (watch_process_lem t p)) (unregister-ToldEmpty t p h)

run-ToldEmpty : (t : ProcessTracker) (es : List Event) → ToldEmpty t → ToldEmpty (run t es)
run-ToldEmpty t [] h = h
run-ToldEmpty t (e ∷ es) h = run-ToldEmpty (step t e) es (step-ToldEmpty t e h)

-- After any run that leaves no session, the last callback made, if any, was `onEmpty`.
pub run-new-ToldEmpty : (es : List Event) → ToldEmpty (run new_process_tracker es)
unfolding new_process_tracker
run-new-ToldEmpty es = run-ToldEmpty new_process_tracker es (inr (inl refl))

abbrev registered : ProcessTracker → ℕ → String → String → ProcessTracker
registered t pid uuid shell = record t {
  sessions = insert pid (new_session t pid uuid shell) t.sessions;
  watchers = record { ctx = t.next_context; pid = pid } ∷ t.watchers;
  next_context = suc t.next_context;
}

register-none :
    (t : ProcessTracker) (pid : ℕ) (uuid shell : String)
    → lookup pid t.sessions ≡ none
    → register t pid uuid shell ≡ registered t pid uuid shell
unfolding register
register-none t pid uuid shell h = rw (h, register)

unregister_some :
    (t : ProcessTracker) (pid : ℕ) (s : Session)
    → lookup pid t.sessions ≡ some s
    → unregister_locked t pid ≡ drop_session t pid s
unfolding unregister_locked
unregister_some t pid s h = rw (h, unregister_locked)

lookup-drop_session :
    (t : ProcessTracker) (pid : ℕ) (s : Session) → lookup pid (drop_session t pid s).sessions ≡ none
unfolding drop_session
lookup-drop_session t pid s = lookup-delete_self pid t.sessions

-- A process that is unregistered and registered again before its first watcher has taken the lock:
-- that watcher's context is cancelled, so it returns, and drops the new session, which is tracked
-- under another context.
pub stale_watcher :
    (t : ProcessTracker) (pid : ℕ) (uuid shell : String)
    → lookup pid t.sessions ≡ none
    → let t' = register (unregister (register t pid uuid shell) pid) pid uuid shell in
      (lookup pid t'.sessions
        ≡ some (record { cancel = suc t.next_context; uuid = uuid; shell = shell; pid = pid }))
      × (t'.watchers
          ≡ record { ctx = suc t.next_context; pid = pid }
            ∷ record { ctx = t.next_context; pid = pid }
            ∷ t.watchers)
      × (t'.cancelled ≡ t.next_context ∷ t.cancelled)
      × (lookup pid (watch_process t' pid).sessions ≡ none)
unfolding unregister drop_session
stale_watcher t pid uuid shell h =
    let s = new_session t pid uuid shell in
    let t1 = registered t pid uuid shell in
    let t2 = drop_session t1 pid s in
    let t3 = registered t2 pid uuid shell in
    let e : register (unregister (register t pid uuid shell) pid) pid uuid shell ≡ t3 =
      ap (λ x. register (unregister x pid) pid uuid shell) (register-none t pid uuid shell h)
      ∙ ap (λ x. register x pid uuid shell)
          (unregister_some t1 pid s (lookup-insert_self pid s t.sessions))
      ∙ register-none t2 pid uuid shell (lookup-drop_session t1 pid s) in
    let s' = new_session t2 pid uuid shell in
    let found : lookup pid t3.sessions ≡ some s' = lookup-insert_self pid s' t2.sessions in
    rw e (
      found,
      refl,
      refl,
      ap (λ x. lookup pid x.sessions) (watch_process_lem t3 pid ∙ unregister_some t3 pid s' found)
          ∙ lookup-drop_session t3 pid s',
    )

drop_session_told :
    (t : ProcessTracker) (pid : ℕ) (s : Session)
    → (0 < length (drop_session t pid s).sessions)
      ⊎ ((drop_session t pid s).called ≡ on_empty ∷ on_unregister pid ∷ t.called)
unfolding drop_session
drop_session_told t pid s = elim (Bool-cases (eqb (length (delete pid t.sessions)) 0)) [
  | inl empty ↦ rw empty (inr refl)
  | inr left ↦ inl (ground (arith, eqb_iff (length (delete pid t.sessions)) 0))
]

-- What `Unregister` comes to: nothing, a session less, or `onEmpty` called last.
pub unregister_told :
    (t : ProcessTracker) (pid : ℕ)
    → (unregister t pid ≡ t)
      ⊎ ((0 < length (unregister t pid).sessions)
          ⊎ ((unregister t pid).called ≡ on_empty ∷ on_unregister pid ∷ t.called))
unfolding unregister unregister_locked
unregister_told t pid = elim (Option-cases (lookup pid t.sessions)) [
  | inl missing ↦ inl (rw (missing, unregister, unregister_locked))
  | inr (s, h) ↦ inr (subst Told (sym (unregister_some t pid s h)) (drop_session_told t pid s))
]
  where
    Told : ProcessTracker → Type 0
    Told t' = (0 < length t'.sessions) ⊎ (t'.called ≡ on_empty ∷ on_unregister pid ∷ t.called)
