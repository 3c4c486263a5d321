-- ===== src/Daemon/Registry/Runs.antt =====
-- Runs of the calls of src/daemon/registry.go.
use prompto.Prelude.{
  ◌+◌, ◌^◌, ◌<◌, ◌≤◌, inl, inr, List, [], ◌∷◌, Option, String, arith, length, string_comparable,
  Option-cases,
}
use prompto.Prelude.Dict.{lookup}
use prompto.Daemon.Cancel.{CancelKind, cancel_hard, cancel_soft}
use prompto.Daemon.Registry.{
  Flags, Engine, EngineRegistry, RenderHandle, any_render, get_or_create_engine, get_active_render,
  cancel_active, cancel_active_render, begin_render, start_generation, start_render, complete,
  cancel_render_if, remove_session, reset, new_engine_registry,
}
use prompto.Daemon.Registry.Invariant.{IsValid, cancel_active-IsValid}
use prompto.Daemon.Registry.Calls.{
  new-IsValid, start_render-IsValid, remove_session-IsValid, reset-IsValid,
  next_id-get_or_create_engine, next_id-cancel_active, begin_render-none, begin_render-some,
}

-- The calls that the daemon makes.
pub data Call : Type 0 where
  starts : String → Option Flags → CancelKind → Call
  completes : RenderHandle → Call
  cancels : String → Call
  removes : String → Call
  resets : Call

abbrev pub call : (Option Flags → Option Engine) → EngineRegistry → Call → EngineRegistry
call factory r (starts i flags k) = (start_render factory r i flags k).1
call factory r (completes h) = complete h r
call factory r (cancels i) = cancel_active_render r i
call factory r (removes i) = remove_session r i
call factory r resets = reset r

abbrev pub calls : (Option Flags → Option Engine) → EngineRegistry → List Call → EngineRegistry
calls factory r [] = r
calls factory r (c ∷ cs) = calls factory (call factory r c) cs

call-IsValid :
    (factory : Option Flags → Option Engine) (r : EngineRegistry) (c : Call)
    → r.next_id + 1 < 2 ^ 64
    → IsValid r
    → IsValid (call factory r c)
unfolding complete cancel_active_render cancel_render_if
call-IsValid factory r (starts i flags k) lt v = start_render-IsValid factory r i flags k lt v
call-IsValid factory r (completes h) lt v = cancel_active-IsValid r h.session_id h.render_id v
call-IsValid factory r (cancels i) lt v = cancel_active-IsValid r i any_render v
call-IsValid factory r (removes i) lt v = remove_session-IsValid r i v
call-IsValid factory r resets lt v = reset-IsValid r v

next_id-begin_render :
    (r : EngineRegistry) (i : String) (e : Option Engine)
    → r.next_id + 1 < 2 ^ 64
    → (begin_render r i e).1.next_id ≤ r.next_id + 1
next_id-begin_render r i e lt = elim (Option-cases (lookup i r.sessions)) [
  | inl missing ↦ rw (begin_render-none r i e missing) (omega arith)
  | inr (st, h) ↦ rw (begin_render-some r i e st h) (omega arith)
]

next_id-start_generation :
    (r : EngineRegistry) (i : String) (e : Option Engine) (k : CancelKind)
    → r.next_id + 1 < 2 ^ 64
    → (start_generation r i e k).1.next_id ≤ r.next_id + 1
unfolding start_generation
next_id-start_generation r i e cancel_hard lt =
    let same = next_id-cancel_active r i any_render in
    omega
      (arith, same, next_id-begin_render (cancel_active r i any_render) i e (omega (arith, same)))
next_id-start_generation r i e cancel_soft lt = elim (Option-cases (get_active_render r i)) [
  | inl none_live ↦ rw none_live (next_id-begin_render r i e lt)
  | inr (live, h) ↦ rw h (omega arith)
]

next_id-call :
    (factory : Option Flags → Option Engine) (r : EngineRegistry) (c : Call)
    → r.next_id + 1 < 2 ^ 64
    → (call factory r c).next_id ≤ r.next_id + 1
unfolding start_render complete cancel_active_render cancel_render_if remove_session reset
next_id-call factory r (starts i flags k) lt =
    let same = next_id-get_or_create_engine factory r i flags in
    omega (
      arith,
      same,
      next_id-start_generation (get_or_create_engine factory r i flags).1 i
          (get_or_create_engine factory r i flags).0 k (omega (arith, same)),
    )
next_id-call factory r (completes h) lt =
    omega (arith, next_id-cancel_active r h.session_id h.render_id)
next_id-call factory r (cancels i) lt = omega (arith, next_id-cancel_active r i any_render)
next_id-call factory r (removes i) lt = omega arith
next_id-call factory r resets lt = omega arith

calls-IsValid :
    (factory : Option Flags → Option Engine) (r : EngineRegistry) (cs : List Call)
    → r.next_id + length cs < 2 ^ 64
    → IsValid r
    → IsValid (calls factory r cs)
calls-IsValid factory r [] lt v = v
calls-IsValid factory r (c ∷ cs) lt v =
    calls-IsValid factory (call factory r c) cs
      (omega (arith, next_id-call factory r c (omega arith)))
      (call-IsValid factory r c (omega arith) v)

-- After any calls, fewer than 2 ^ 64 of them: a session's active generation has a context that is
-- not cancelled and the cancel function of that context, and no two sessions share a context or a
-- render id.
pub calls-new-IsValid :
    (factory : Option Flags → Option Engine) (cs : List Call)
    → length cs < 2 ^ 64
    → IsValid (calls factory new_engine_registry cs)
unfolding new_engine_registry
calls-new-IsValid factory cs lt =
    calls-IsValid factory new_engine_registry cs (omega arith) new-IsValid
