-- ===== src/Daemon/Registry.antt =====
-- src/daemon/registry.go: the prompt engine of each session and its active render generation.
-- A context is a number: `context.WithCancel` hands out the next one, and calling a cancel function
-- adds its context's number to `cancelled`. The engine factory, `prompt.New`, is a parameter.
-- A method is one step, although `StartRender` gives up its lock between its engine and its generation.
pub mod Invariant
pub mod Calls
pub mod Runs
pub mod Generations
use prompto.Prelude.{
  ℕ, suc, ◌+◌, ◌%◌, ◌^◌, Bool, true, false, not, ◌&&◌, ◌||◌, List, [], ◌∷◌, Option, none, some,
  String, if◌then◌else◌, ◌==◌, string_comparable, eqb,
}
use prompto.Prelude.Dict.{Dict, lookup, insert, delete}
use prompto.Daemon.Cancel.{CancelKind, repaint}

-- The flags that the registry and the pipeline read (src/runtime).
pub record Flags : Type 0 where
  pub config_path : String
  pub type : String
  pub command : String

-- What the daemon looks at in an engine: its identity and the `Source` of its `LayoutConfig`.
pub record Engine : Type 0 where
  pub id : ℕ
  pub layout_source : Option String
  pub has_config : Bool

pub record SessionState : Type 0 where
  pub engine : Option Engine
  pub active_ctx : Option ℕ
  pub active_cancel : Option ℕ
  pub active_id : ℕ

pub record EngineRegistry : Type 0 where
  pub sessions : Dict String SessionState
  pub next_id : ℕ
  pub next_context : ℕ
  pub cancelled : List ℕ

pub record RenderHandle : Type 0 where
  pub context : ℕ
  pub engine : Option Engine
  pub session_id : String
  pub render_id : ℕ
  pub reattached : Bool

unfoldable pub new_engine_registry : EngineRegistry
new_engine_registry = record { sessions = []; next_id = 0; next_context = 0; cancelled = [] }

-- Whether the engine was built for the config that the request names.
unfoldable pub engine_serves_config : Option Engine → Option Flags → Bool
engine_serves_config none flags = true
engine_serves_config (some engine) none = true
engine_serves_config (some engine) (some flags) =
    if flags.config_path == ""
    then true
    else elim engine.layout_source [ none ↦ true | some source ↦ source == flags.config_path ]

module _ (factory : Option Flags → Option Engine) where
  abbrev pub fresh_session : Option Flags → SessionState
  fresh_session flags = record {
    engine = factory flags;
    active_ctx = none;
    active_cancel = none;
    active_id = 0;
  }

  pub build_engine : EngineRegistry → String → Option Flags → Option Engine × EngineRegistry
  build_engine r id flags =
      (factory flags, record r { sessions = insert id (fresh_session flags) r.sessions })

  unfoldable pub get_or_create_engine :
      EngineRegistry → String → Option Flags → Option Engine × EngineRegistry
  unfolding build_engine engine_serves_config
  get_or_create_engine r id flags = elim (lookup id r.sessions) [
    | none ↦ build_engine r id flags
    | some state ↦
        if engine_serves_config state.engine flags
        then (state.engine, r)
        else build_engine r id flags
  ]

-- `nextID.Add(1)` wraps at 2 ^ 64.
abbrev pub next_render_id : EngineRegistry → ℕ
next_render_id r = (r.next_id + 1) % 2 ^ 64

unfoldable pub set_active_render : EngineRegistry → String → ℕ → (ℕ × Bool) × EngineRegistry
set_active_render r id ctx = elim (lookup id r.sessions) [
  | none ↦ ((0, false), r)
  | some state ↦ (
    (next_render_id r, true),
    record r {
      next_id = next_render_id r;
      sessions =
          insert id
            (record state {
              active_ctx = some ctx;
              active_cancel = some ctx;
              active_id = next_render_id r;
            })
            r.sessions;
    },
  )
]

unfoldable pub get_active_render : EngineRegistry → String → Option (ℕ × ℕ)
get_active_render r id = elim (lookup id r.sessions) [
  | none ↦ none
  | some state ↦ elim state.active_ctx [ none ↦ none | some ctx ↦ some (ctx, state.active_id) ]
]

-- Matches whichever generation is active.
abbrev pub any_render : ℕ
any_render = 0

pub retire_active : EngineRegistry → String → SessionState → ℕ → ℕ → EngineRegistry
retire_active r id state cancel render_id =
    if not (eqb render_id any_render) && not (eqb state.active_id render_id) then r else record r {
      sessions =
          insert id (record state { active_ctx = none; active_cancel = none; active_id = 0 })
            r.sessions;
      cancelled = cancel ∷ r.cancelled;
    }

unfoldable pub cancel_active : EngineRegistry → String → ℕ → EngineRegistry
unfolding retire_active
cancel_active r id render_id = elim (lookup id r.sessions) [
  | none ↦ r
  | some state ↦ elim state.active_cancel [
    | none ↦ r
    | some cancel ↦ retire_active r id state cancel render_id
  ]
]

unfoldable pub cancel_active_render : EngineRegistry → String → EngineRegistry
unfolding cancel_active
cancel_active_render r id = cancel_active r id any_render

unfoldable pub cancel_render_if : EngineRegistry → String → ℕ → EngineRegistry
unfolding cancel_active
cancel_render_if r id render_id = cancel_active r id render_id

-- `RenderHandle.Complete`.
unfoldable pub complete : RenderHandle → EngineRegistry → EngineRegistry
unfolding cancel_render_if
complete h r = cancel_render_if r h.session_id h.render_id

-- The tail of `StartRender`: a context, and a generation that owns it.
pub begin_render : EngineRegistry → String → Option Engine → RenderHandle × EngineRegistry
unfolding set_active_render
begin_render r id engine =
    let ctx = r.next_context in
    let (started, r') = set_active_render (record r { next_context = suc ctx }) id ctx in
    (
      record {
        context = ctx;
        engine = engine;
        session_id = id;
        render_id = started.0;
        reattached = false;
      },
      r',
    )

reattach : String → Option Engine → ℕ × ℕ → RenderHandle
reattach id engine (ctx, render_id) = record {
  context = ctx;
  engine = engine;
  session_id = id;
  render_id = render_id;
  reattached = true;
}

-- `StartRender` behind the engine: reattach, or cancel and begin.
pub start_generation :
    EngineRegistry → String → Option Engine → CancelKind → RenderHandle × EngineRegistry
unfolding get_active_render cancel_active_render begin_render reattach repaint
start_generation r id engine kind =
    if repaint kind
    then elim (get_active_render r id) [
      | some live ↦ (reattach id engine live, r)
      | none ↦ begin_render r id engine
    ]
    else begin_render (cancel_active_render r id) id engine

module _ (factory : Option Flags → Option Engine) where
  unfoldable pub start_render :
      EngineRegistry → String → Option Flags → CancelKind → RenderHandle × EngineRegistry
  unfolding get_or_create_engine start_generation
  start_render r id flags kind =
      let (engine, r') = get_or_create_engine factory r id flags in
      start_generation r' id engine kind

unfoldable pub remove_session : EngineRegistry → String → EngineRegistry
remove_session r id = record r { sessions = delete id r.sessions }

unfoldable pub reset : EngineRegistry → EngineRegistry
reset r = record r { sessions = [] }

engines_of : Dict String SessionState → Dict String Engine
engines_of [] = []
engines_of ((id, state) ∷ m) =
    let rest = engines_of m in elim state.engine [ none ↦ rest | some e ↦ (id, e) ∷ rest ]

unfoldable pub session_engines : EngineRegistry → Dict String Engine
unfolding engines_of
session_engines r = engines_of r.sessions
