-- ===== src/Daemon/Registry/Generations.antt =====
-- Which generation src/daemon/registry.go keeps, aborts or begins.
use text.Mathlib.TextEquality.{eq_iff}
use prompto.Prelude.{
  Bool-cases, ◌⊎◌, ◌==◌, ℕ, ◌≡◌, refl, sym, ap, subst, ◌∙◌, ◌≢◌, inl, inr, true, false, List, ◌∷◌,
  Option, none, some, String, arith, eqb_iff, string_comparable, Option-cases,
}
use prompto.Prelude.Dict.{lookup, insert, Dict, lookup-insert_self, lookup-insert}
use prompto.Daemon.Cancel.{CancelKind, cancel_hard, cancel_soft}
use prompto.Daemon.Registry.{
  Flags, Engine, SessionState, EngineRegistry, RenderHandle, any_render, next_render_id,
  fresh_session, get_active_render, retire_active, cancel_active, begin_render, start_generation,
  start_render, complete, engine_serves_config,
}
use prompto.Daemon.Registry.Invariant.{
  retired, cancelling, begun, beginning, cancel_active-some, cancel_active-none,
}
use prompto.Daemon.Registry.Calls.{begin_render-some, get_serves, get_other}

-- The contexts that are cancelled once the given one is, if any.
abbrev pub with_cancelled : Option ℕ → List ℕ → List ℕ
with_cancelled none cs = cs
with_cancelled (some c) cs = c ∷ cs

-- What a call that begins a generation does: the session's active generation is the handle's, with
-- the next render id and a context made for it; `ended` is cancelled, and other sessions stay.
pub record Begins (r : EngineRegistry) (i : String) (ended : Option ℕ) (h : RenderHandle)
    (r' : EngineRegistry) : Type 0 where
  pub active : get_active_render r' i ≡ some (h.context, h.render_id)
  pub numbered : h.render_id ≡ next_render_id r
  pub made : h.context ≡ r.next_context
  pub session : h.session_id ≡ i
  pub fresh : h.reattached ≡ false
  pub aborted : r'.cancelled ≡ with_cancelled ended r.cancelled
  pub others : (j : String) → (i ≡ j) ⊎ (lookup j r'.sessions ≡ lookup j r.sessions)

get_active_render-some :
    (r : EngineRegistry) (i : String) (st : SessionState) (ctx : ℕ)
    → lookup i r.sessions ≡ some st
    → st.active_ctx ≡ some ctx
    → get_active_render r i ≡ some (ctx, st.active_id)
unfolding get_active_render
get_active_render-some r i st ctx h e = rw (h, get_active_render) (rw e)

-- A map that differs from another in one session differs in it after writing it.
written :
    (i j : String) (st : SessionState) (m m' : Dict String SessionState)
    → (i ≡ j) ⊎ (lookup j m ≡ lookup j m')
    → (i ≡ j) ⊎ (lookup j (insert i st m) ≡ lookup j m')
written i j st m m' (inl same) = inl same
written i j st m m' (inr e) = elim (Bool-cases (i == j)) [
  | inl same ↦ inl ((eq_iff i j).0 same)
  | inr differs ↦ inr (lookup-insert i j st m ∙ rw differs e)
]

-- `begin_render` on a registry that differs from `r` in the session and in what is cancelled.
begin-Begins :
    (r q : EngineRegistry) (i : String) (e : Option Engine) (st : SessionState) (ended : Option ℕ)
    → lookup i q.sessions ≡ some st
    → q.next_id ≡ r.next_id
    → q.next_context ≡ r.next_context
    → q.cancelled ≡ with_cancelled ended r.cancelled
    → ((j : String) → (i ≡ j) ⊎ (lookup j q.sessions ≡ lookup j r.sessions))
    → Begins r i ended (begin_render q i e).0 (begin_render q i e).1
begin-Begins r q i e st ended h n c g o = rw (begin_render-some q i e st h) (record {
  active =
      get_active_render-some (beginning q i st) i (begun q st) q.next_context
        (lookup-insert_self i (begun q st) q.sessions) refl;
  numbered = rw n;
  made = c;
  session = refl;
  fresh = refl;
  aborted = g;
  others = λ j. written i j (begun q st) q.sessions r.sessions (o j);
})

-- Cancelling whichever generation is active.
cancel_live :
    (r : EngineRegistry) (i : String) (st : SessionState) (ctx : ℕ)
    → lookup i r.sessions ≡ some st
    → st.active_cancel ≡ some ctx
    → cancel_active r i any_render ≡ cancelling r i st ctx
unfolding retire_active
cancel_live r i st ctx h e = cancel_active-some r i st ctx any_render h e

abbrev BeginsFrom : EngineRegistry → String → Option Engine → Option ℕ → EngineRegistry → Type 0
BeginsFrom r i e ended q = Begins r i ended (begin_render q i e).0 (begin_render q i e).1

abort-Begins :
    (r : EngineRegistry) (i : String) (e : Option Engine) (st : SessionState)
    → lookup i r.sessions ≡ some st
    → BeginsFrom r i e st.active_cancel (cancel_active r i any_render)
abort-Begins r i e st h = elim (Option-cases st.active_cancel) [
  | inl idle ↦
      subst (BeginsFrom r i e st.active_cancel) (sym (cancel_active-none r i st any_render h idle))
        (begin-Begins r r i e st st.active_cancel h refl refl (rw idle) (λ j. inr refl))
  | inr (ctx, live) ↦
      subst (BeginsFrom r i e st.active_cancel) (sym (cancel_live r i st ctx h live)) (
        begin-Begins r (cancelling r i st ctx) i e (retired st) st.active_cancel
          (lookup-insert_self i (retired st) r.sessions) refl refl (rw live)
          (λ j. written i j (retired st) r.sessions r.sessions (inr refl)))
]

-- The engine of a session, when it serves the request's config, is all that `start_render` looks up.
start_served :
    (factory : Option Flags → Option Engine) (r : EngineRegistry) (i : String)
    (flags : Option Flags) (k : CancelKind) (st : SessionState)
    → lookup i r.sessions ≡ some st
    → engine_serves_config st.engine flags ≡ true
    → start_render factory r i flags k ≡ start_generation r i st.engine k
unfolding start_render
start_served factory r i flags k st h s =
    ap (λ p. start_generation p.1 i p.0 k) (get_serves factory r i flags st h s)

-- A hard cancel of a session whose engine serves the config aborts the generation that it finds, if
-- any, and begins one: new id, new context, every other session untouched.
pub start_render-hard :
    (factory : Option Flags → Option Engine) (r : EngineRegistry) (i : String)
    (flags : Option Flags) (st : SessionState)
    → lookup i r.sessions ≡ some st
    → engine_serves_config st.engine flags ≡ true
    → let (h, r') = start_render factory r i flags cancel_hard in Begins r i st.active_cancel h r'
start_render-hard factory r i flags st h s =
    rw (start_served factory r i flags cancel_hard st h s) (hard st.engine)
  where
    hard :
        (e : Option Engine)
        → Begins r i st.active_cancel
            (start_generation r i e cancel_hard).0
            (start_generation r i e cancel_hard).1
    hard e = unfold start_generation in abort-Begins r i e st h

-- A soft cancel that finds an active generation reattaches to it: the handle has its context and
-- id, and the registry is left as it was, so nothing is aborted.
pub start_render-soft :
    (factory : Option Flags → Option Engine) (r : EngineRegistry) (i : String)
    (flags : Option Flags) (st : SessionState) (ctx : ℕ)
    → lookup i r.sessions ≡ some st
    → engine_serves_config st.engine flags ≡ true
    → st.active_ctx ≡ some ctx
    → start_render factory r i flags cancel_soft ≡ (
      record {
        context = ctx;
        engine = st.engine;
        session_id = i;
        render_id = st.active_id;
        reattached = true;
      },
      r,
    )
unfolding start_generation
start_render-soft factory r i flags st ctx h s live =
    start_served factory r i flags cancel_soft st h s
    ∙ rw (get_active_render-some r i st ctx h live)

-- The registry with a new engine for the session.
abbrev rebuilt :
    (Option Flags → Option Engine) → EngineRegistry → String → Option Flags → EngineRegistry
rebuilt factory r i flags = record r {
  sessions = insert i (fresh_session factory flags) r.sessions;
}

start_other :
    (factory : Option Flags → Option Engine) (r : EngineRegistry) (i : String)
    (flags : Option Flags) (k : CancelKind) (st : SessionState)
    → lookup i r.sessions ≡ some st
    → engine_serves_config st.engine flags ≡ false
    → start_render factory r i flags k
      ≡ start_generation (rebuilt factory r i flags) i (factory flags) k
unfolding start_render
start_other factory r i flags k st h s =
    ap (λ p. start_generation p.1 i p.0 k) (get_other factory r i flags st h s)

get_active_render-none :
    (r : EngineRegistry) (i : String) (st : SessionState)
    → lookup i r.sessions ≡ some st
    → st.active_ctx ≡ none
    → get_active_render r i ≡ none
unfolding get_active_render
get_active_render-none r i st h e = rw (h, get_active_render) (rw e)

-- In a session that has no generation, either kind begins one.
start_idle :
    (r : EngineRegistry) (i : String) (e : Option Engine) (k : CancelKind) (st : SessionState)
    → lookup i r.sessions ≡ some st
    → st.active_ctx ≡ none
    → st.active_cancel ≡ none
    → start_generation r i e k ≡ begin_render r i e
unfolding start_generation
start_idle r i e cancel_hard st h c d =
    ap (λ q. begin_render q i e) (cancel_active-none r i st any_render h d)
start_idle r i e cancel_soft st h c d = rw (get_active_render-none r i st h c)

-- A request for another config rebuilds the engine, and then, hard or soft, no context is cancelled:
-- the generation that the session had stays live, and the registry has forgotten it.
pub start_render_rebuild :
    (factory : Option Flags → Option Engine) (r : EngineRegistry) (i : String)
    (flags : Option Flags) (k : CancelKind) (st : SessionState)
    → lookup i r.sessions ≡ some st
    → engine_serves_config st.engine flags ≡ false
    → let (h, r') = start_render factory r i flags k in Begins r i none h r'
start_render_rebuild factory r i flags k st h s =
    let new = fresh_session factory flags in
    let q = rebuilt factory r i flags in
    let found = lookup-insert_self i new r.sessions in
    subst (λ (p : RenderHandle × EngineRegistry). Begins r i none p.0 p.1)
      (sym (
        start_other factory r i flags k st h s
        ∙ start_idle q i (factory flags) k new found refl refl))
      (begin-Begins r q i (factory flags) new none found refl refl refl
        (λ j. written i j new r.sessions r.sessions (inr refl)))

-- A handle that is retired late aborts nothing: once the session has another generation,
-- `Complete` leaves the registry as it was.
pub complete_late :
    (r : EngineRegistry) (h : RenderHandle) (st : SessionState)
    → lookup h.session_id r.sessions ≡ some st
    → h.render_id ≢ 0
    → st.active_id ≢ h.render_id
    → complete h r ≡ r
unfolding complete
complete_late r h st found nonzero other = elim (Option-cases st.active_cancel) [
  | inl idle ↦ cancel_active-none r h.session_id st h.render_id found idle
  | inr (ctx, live) ↦
      cancel_active-some r h.session_id st ctx h.render_id found live
      ∙ keep r h.session_id st ctx h.render_id nonzero other
]
  where
    keep :
        (q : EngineRegistry) (i : String) (s : SessionState) (c n : ℕ)
        → n ≢ 0
        → s.active_id ≢ n
        → retire_active q i s c n ≡ q
    keep q i s c n z o = unfold retire_active in ground (arith, eqb_iff n 0, eqb_iff s.active_id n)

-- A handle whose generation is still the session's aborts exactly that one.
pub complete_current :
    (r : EngineRegistry) (h : RenderHandle) (st : SessionState) (ctx : ℕ)
    → lookup h.session_id r.sessions ≡ some st
    → st.active_cancel ≡ some ctx
    → st.active_id ≡ h.render_id
    → (complete h r ≡ cancelling r h.session_id st ctx)
      × (get_active_render (complete h r) h.session_id ≡ none)
unfolding complete retire_active
complete_current r h st ctx found live same =
    let done_it : complete h r ≡ cancelling r h.session_id st ctx =
      cancel_active-some r h.session_id st ctx h.render_id found live
      ∙ ground (arith, eqb_iff st.active_id h.render_id) in
    (
      done_it,
      subst (λ q. get_active_render q h.session_id ≡ none) (sym done_it)
          (get_active_render-none (cancelling r h.session_id st ctx) h.session_id (retired st)
            (lookup-insert_self h.session_id (retired st) r.sessions) refl),
    )
