-- ===== src/Daemon/ProcessTracker.antt =====
-- src/daemon/process_tracker.go: the shells whose exit the daemon watches for.
-- The callbacks are a log of the calls made to them. A watcher is the goroutine that `Register`
-- starts: it stands in `waitForProcessExit` until its process has exited or its context is
-- cancelled, and `watch_process` is the section that it then runs.
pub mod Accounting
use prompto.Prelude.{
  ℕ, suc, Bool, true, false, List, [], ◌∷◌, ◌++◌, Option, none, some, String, if◌then◌else◌, eqb,
  length, nat_comparable,
}
use prompto.Prelude.Dict.{Dict, lookup, insert, delete}

pub record Session : Type 0 where
  pub cancel : ℕ
  pub uuid : String
  pub shell : String
  pub pid : ℕ

pub data Callback : Type 0 where
  on_unregister : ℕ → Callback
  on_empty : Callback

pub record Watcher : Type 0 where
  pub ctx : ℕ
  pub pid : ℕ

pub record ProcessTracker : Type 0 where
  pub sessions : Dict ℕ Session
  pub called : List Callback
  pub watchers : List Watcher
  pub next_context : ℕ
  pub cancelled : List ℕ

unfoldable pub new_process_tracker : ProcessTracker
new_process_tracker = record {
  sessions = [];
  called = [];
  watchers = [];
  next_context = 0;
  cancelled = [];
}

abbrev pub new_session : ProcessTracker → ℕ → String → String → Session
new_session t pid uuid shell = record {
  cancel = t.next_context;
  uuid = uuid;
  shell = shell;
  pid = pid;
}

unfoldable pub register : ProcessTracker → ℕ → String → String → ProcessTracker
register t pid uuid shell = elim (lookup pid t.sessions) [
  | some s ↦ t
  | none ↦ record t {
    sessions = insert pid (new_session t pid uuid shell) t.sessions;
    watchers = record { ctx = t.next_context; pid = pid } ∷ t.watchers;
    next_context = suc t.next_context;
  }
]

-- Newest call first.
drop_session : ProcessTracker → ℕ → Session → ProcessTracker
drop_session t pid s =
    let left = delete pid t.sessions in
    record t {
      sessions = left;
      cancelled = s.cancel ∷ t.cancelled;
      called =
          if eqb (length left) 0
          then on_empty ∷ on_unregister pid ∷ t.called
          else on_unregister pid ∷ t.called;
    }

unfoldable pub unregister_locked : ProcessTracker → ℕ → ProcessTracker
unfolding drop_session
unregister_locked t pid = elim (lookup pid t.sessions) [ none ↦ t | some s ↦ drop_session t pid s ]

unfoldable pub unregister : ProcessTracker → ℕ → ProcessTracker
unfolding unregister_locked
unregister t pid = unregister_locked t pid

unfoldable pub count : ProcessTracker → ℕ
count t = length t.sessions

-- `watchProcess` behind `waitForProcessExit`.
unfoldable pub watch_process : ProcessTracker → ℕ → ProcessTracker
unfolding unregister_locked
watch_process t pid = elim (lookup pid t.sessions) [ none ↦ t | some s ↦ unregister_locked t pid ]
