-- ===== src/Daemon/Registry/Calls.antt =====
-- Every call of src/daemon/registry.go keeps its invariant.
use prompto.Prelude.{
  ℕ, suc, ◌+◌, ◌^◌, ◌<◌, ◌≡◌, refl, ◌⊎◌, inl, inr, true, false, Option, none, some, String, arith,
  string_comparable, Bool-cases, Option-cases,
}
use prompto.Prelude.Dict.{lookup, lookup-delete_cases}
use prompto.Daemon.Cancel.{CancelKind, cancel_hard, cancel_soft}
use prompto.Daemon.Registry.{
  Flags, Engine, SessionState, EngineRegistry, any_render, next_render_id, build_engine,
  fresh_session, get_or_create_engine, set_active_render, get_active_render, cancel_active,
  begin_render, start_generation, start_render, remove_session, reset, new_engine_registry,
  engine_serves_config,
}
use prompto.Daemon.Registry.Invariant.{
  IsValid, idle-IsValid, cancel_active-IsValid, beginning, beginning-IsValid,
}

pub new-IsValid : IsValid new_engine_registry
unfolding new_engine_registry lookup
new-IsValid = record {
  paired = λ i s h. absurd (none_ne h);
  apart = λ i j s t h k n. absurd (none_ne h);
  old = λ c h. cc;
}
  where
    none_ne : {s : SessionState} → ◌≡◌ {A = Option SessionState} none (some s) → ⊥
    none_ne h = cc

-- The registry with one more context made.
abbrev pub with_context : EngineRegistry → EngineRegistry
with_context r = record r { next_context = suc r.next_context }

pub begin_render-some :
    (r : EngineRegistry) (i : String) (e : Option Engine) (st : SessionState)
    → lookup i r.sessions ≡ some st
    → begin_render r i e ≡ (
      record {
        context = r.next_context;
        engine = e;
        session_id = i;
        render_id = next_render_id r;
        reattached = false;
      },
      beginning r i st,
    )
unfolding begin_render
begin_render-some r i e st h = rw (h, set_active_render)

pub begin_render-none :
    (r : EngineRegistry) (i : String) (e : Option Engine)
    → lookup i r.sessions ≡ none
    → (begin_render r i e).1 ≡ with_context r
unfolding begin_render
begin_render-none r i e h = rw (h, set_active_render)

with_context-IsValid : (r : EngineRegistry) → IsValid r → IsValid (with_context r)
with_context-IsValid r v = record {
  paired = λ i s h. ground (arith, v.paired i s h);
  apart = v.apart;
  old = λ c h. omega (arith, v.old c h);
}

begin_render-IsValid :
    (r : EngineRegistry) (i : String) (e : Option Engine)
    → r.next_id + 1 < 2 ^ 64
    → IsValid r
    → IsValid (begin_render r i e).1
begin_render-IsValid r i e lt v = elim (Option-cases (lookup i r.sessions)) [
  | inl missing ↦ rw (begin_render-none r i e missing) (with_context-IsValid r v)
  | inr (st, h) ↦ rw (begin_render-some r i e st h) (beginning-IsValid r i st lt v)
]

module _ (factory : Option Flags → Option Engine) (r : EngineRegistry) (i : String)
    (flags : Option Flags) where
  get_missing :
      lookup i r.sessions ≡ none
      → get_or_create_engine factory r i flags ≡ build_engine factory r i flags
  unfolding get_or_create_engine
  get_missing h = rw (h, get_or_create_engine)

  pub get_serves :
      (st : SessionState)
      → lookup i r.sessions ≡ some st
      → engine_serves_config st.engine flags ≡ true
      → get_or_create_engine factory r i flags ≡ (st.engine, r)
  unfolding get_or_create_engine
  get_serves st h s = rw (h, get_or_create_engine) (rw s)

  pub get_other :
      (st : SessionState)
      → lookup i r.sessions ≡ some st
      → engine_serves_config st.engine flags ≡ false
      → get_or_create_engine factory r i flags ≡ build_engine factory r i flags
  unfolding get_or_create_engine
  get_other st h s = rw (h, get_or_create_engine) (rw s)

pub get_or_create_engine_cases :
    (factory : Option Flags → Option Engine) (r : EngineRegistry) (i : String)
    (flags : Option Flags)
    → (get_or_create_engine factory r i flags ≡ build_engine factory r i flags)
      ⊎ ((st : SessionState) × (lookup i r.sessions ≡ some st)
          × (engine_serves_config st.engine flags ≡ true)
          × (get_or_create_engine factory r i flags ≡ (st.engine, r)))
get_or_create_engine_cases factory r i flags = elim (Option-cases (lookup i r.sessions)) [
  | inl missing ↦ inl (get_missing factory r i flags missing)
  | inr (st, h) ↦ elim (Bool-cases (engine_serves_config st.engine flags)) [
    | inl serves ↦ inr (st, h, serves, get_serves factory r i flags st h serves)
    | inr other ↦ inl (get_other factory r i flags st h other)
  ]
]

build_engine-IsValid :
    (factory : Option Flags → Option Engine) (r : EngineRegistry) (i : String)
    (flags : Option Flags)
    → IsValid r
    → IsValid (build_engine factory r i flags).1
unfolding build_engine
build_engine-IsValid factory r i flags v =
    idle-IsValid r i (fresh_session factory flags) (refl, refl) v

get_or_create_engine-IsValid :
    (factory : Option Flags → Option Engine) (r : EngineRegistry) (i : String)
    (flags : Option Flags)
    → IsValid r
    → IsValid (get_or_create_engine factory r i flags).1
get_or_create_engine-IsValid factory r i flags v =
    elim (get_or_create_engine_cases factory r i flags) [
      | inl e ↦ rw e (build_engine-IsValid factory r i flags v)
      | inr (st, h, _, e) ↦ rw e v
    ]

-- None of these calls hands out an id.
pub next_id-get_or_create_engine :
    (factory : Option Flags → Option Engine) (r : EngineRegistry) (i : String)
    (flags : Option Flags)
    → (get_or_create_engine factory r i flags).1.next_id ≡ r.next_id
next_id-get_or_create_engine factory r i flags =
    elim (get_or_create_engine_cases factory r i flags) [
      | inl e ↦ rw e (unfold build_engine in refl)
      | inr (st, h, _, e) ↦ rw e
    ]

pub next_id-cancel_active :
    (r : EngineRegistry) (i : String) (n : ℕ) → (cancel_active r i n).next_id ≡ r.next_id
unfolding cancel_active
next_id-cancel_active r i n = ground arith

start_generation-IsValid :
    (r : EngineRegistry) (i : String) (e : Option Engine) (k : CancelKind)
    → r.next_id + 1 < 2 ^ 64
    → IsValid r
    → IsValid (start_generation r i e k).1
unfolding start_generation
start_generation-IsValid r i e cancel_hard lt v =
    begin_render-IsValid (cancel_active r i any_render) i e
      (omega (arith, next_id-cancel_active r i any_render)) (cancel_active-IsValid r i any_render v)
start_generation-IsValid r i e cancel_soft lt v = elim (Option-cases (get_active_render r i)) [
  | inl none_live ↦ rw none_live (begin_render-IsValid r i e lt v)
  | inr (live, h) ↦ rw h v
]

pub start_render-IsValid :
    (factory : Option Flags → Option Engine) (r : EngineRegistry) (i : String)
    (flags : Option Flags) (k : CancelKind)
    → r.next_id + 1 < 2 ^ 64
    → IsValid r
    → IsValid (start_render factory r i flags k).1
unfolding start_render
start_render-IsValid factory r i flags k lt v =
    start_generation-IsValid (get_or_create_engine factory r i flags).1 i
      (get_or_create_engine factory r i flags).0 k
      (omega (arith, next_id-get_or_create_engine factory r i flags))
      (get_or_create_engine-IsValid factory r i flags v)

pub remove_session-IsValid :
    (r : EngineRegistry) (i : String) → IsValid r → IsValid (remove_session r i)
unfolding remove_session
remove_session-IsValid r i v = record {
  paired = λ j s h. v.paired j s (lookup-delete_cases i j s r.sessions h).1;
  apart = λ j k s t hs ht.
      v.apart j k s t (lookup-delete_cases i j s r.sessions hs).1
        (lookup-delete_cases i k t r.sessions ht).1;
  old = v.old;
}

pub reset-IsValid : (r : EngineRegistry) → IsValid r → IsValid (reset r)
unfolding reset lookup
reset-IsValid r v = record {
  paired = λ i s h. absurd (none_ne h);
  apart = λ i j s t h k n. absurd (none_ne h);
  old = v.old;
}
  where
    none_ne : {s : SessionState} → ◌≡◌ {A = Option SessionState} none (some s) → ⊥
    none_ne h = cc
