-- ===== src/Daemon/SessionTests.antt =====
-- The theorems about the session registry at concrete inputs.
use prompto.Prelude.{
  refl, string_comparable, true, false, [], ◌∷◌, ℕ, some, none, arith, String, Option,
}
use prompto.Prelude.Dict.{lookup}
use prompto.Daemon.Cancel.{cancel_hard, cancel_soft}
use prompto.Daemon.Registry.{
  Flags, Engine, SessionState, EngineRegistry, RenderHandle, new_engine_registry, start_render,
  engine_serves_config,
}
use prompto.Daemon.Registry.Invariant.{IsValid}
use prompto.Daemon.Registry.Runs.{starts, removes, calls, calls-new-IsValid}
use prompto.Daemon.Registry.Generations.{Begins, start_render-hard, start_render_rebuild}

-- An engine factory: an engine for the config that the flags name.
abbrev factory : Option Flags → Option Engine
factory none = some (record { id = 1; layout_source = none; has_config = true })
factory (some flags) =
    some (record { id = 2; layout_source = some flags.config_path; has_config = true })

abbrev flags_of : String → Flags
flags_of path = record { config_path = path; type = "primary"; command = "" }

abbrev rendering : SessionState
rendering = record {
  engine = some (record { id = 2; layout_source = some "a.yaml"; has_config = true });
  active_ctx = some 4;
  active_cancel = some 4;
  active_id = 9;
}

abbrev one_render : EngineRegistry
one_render = record {
  sessions = ("s", rendering) ∷ [];
  next_id = 9;
  next_context = 5;
  cancelled = 3 ∷ [];
}

calls-new-IsValid_example : IsValid (
    calls factory new_engine_registry (
      starts "s" (some (flags_of "a.yaml")) cancel_hard
      ∷ starts "t" none cancel_soft
      ∷ starts "s" (some (flags_of "a.yaml")) cancel_hard
      ∷ removes "t"
      ∷ []))
calls-new-IsValid_example =
    calls-new-IsValid factory
      (starts "s" (some (flags_of "a.yaml")) cancel_hard
        ∷ starts "t" none cancel_soft
        ∷ starts "s" (some (flags_of "a.yaml")) cancel_hard
        ∷ removes "t"
        ∷ [])
      (omega arith)

start_render-hard_example :
    let (h, r') = start_render factory one_render "s" (some (flags_of "a.yaml")) cancel_hard in
    Begins one_render "s" (some 4) h r'
unfolding engine_serves_config lookup
start_render-hard_example =
    start_render-hard factory one_render "s" (some (flags_of "a.yaml")) rendering refl refl

start_render_rebuild_example :
    let (h, r') = start_render factory one_render "s" (some (flags_of "b.yaml")) cancel_hard in
    Begins one_render "s" none h r'
unfolding engine_serves_config lookup
start_render_rebuild_example =
    start_render_rebuild factory one_render "s" (some (flags_of "b.yaml")) cancel_hard rendering
      refl refl

abbrev handle_of : ℕ → RenderHandle
handle_of id = record {
  context = 4;
  engine = none;
  session_id = "s";
  render_id = id;
  reattached = false;
}
