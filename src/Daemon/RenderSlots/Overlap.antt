-- ===== src/Daemon/RenderSlots/Overlap.antt =====
-- Two calls of `StartRender` in src/daemon/daemon.go for the same session that overlap: both have left
-- the section of the switch before either comes to the section that stores its handle.
use prompto.Prelude.{◌≡◌, List, [], ◌∷◌, Option, some, string_comparable}
use prompto.Daemon.Registry.{Flags, Engine, EngineRegistry}
use prompto.Daemon.RenderPipeline.{
  HubOps, Pipeline, Rendering, PromptBundle, session_hub, start, new_render_pipeline,
}
use prompto.Daemon.RenderSlots.{Daemon, RenderRequest}
use prompto.Daemon.RenderSlots.Sections.{
  Section, switches, begins, reads, stores, drops, completes, removes,
}

-- The requests, which get the handles 0 and 1, and then the end of the session (`completeRender`), which
-- completes the handle that it finds.
abbrev pub overlapping : Rendering → Rendering → RenderRequest → RenderRequest → List Section
overlapping rendering rendering' request request' =
    switches request
    ∷ switches request'
    ∷ begins rendering request
    ∷ begins rendering' request'
    ∷ reads request.session_id
    ∷ reads request'.session_id
    ∷ stores request.session_id (some 0)
    ∷ stores request'.session_id (some 1)
    ∷ drops request.session_id
    ∷ completes 1
    ∷ removes request.session_id
    ∷ []

module _ {H : Type 0} (ops : HubOps H) (factory : Option Flags → Option Engine)
    (registry : EngineRegistry) (rendering rendering' : Rendering)
    (request request' : RenderRequest) (x y : PromptBundle) (p q : Pipeline H)
    (first : start ops factory
        (new_render_pipeline registry)
        rendering
        request.session_id
        request.flags
        request.cancel
      ≡ some ((x, some 0), p))
    (second : start ops factory p rendering' request'.session_id request'.flags request'.cancel
      ≡ some ((y, some 1), q)) where
  abbrev read_twice : Pipeline H
  read_twice = (session_hub ops (session_hub ops q request.session_id).1 request'.session_id).1
