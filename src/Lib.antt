-- ===== src/Lib.antt =====
-- Verification of prompto, a prompt renderer for shells with a daemon that renders in the
-- background.
--
-- A shell asks the daemon for its prompt; the daemon answers with what it has and streams better
-- versions as slow segments finish. A request passes the reload gate, starts or joins a render
-- generation of its session in the engine registry, and the renderer publishes each version to the
-- session's update hub, from which the stream relay feeds the client. Sessions end when their shell
-- exits, which the process tracker watches for.
--
-- Which file models which part (paths from the repository's root; Go names in camel case are in
-- snake case here):
--   Daemon/UpdateHub       src/daemon/update_hub.go: Publish, Sequence, Last, Subscribe
--   Daemon/StreamRelay     src/daemon/stream_relay.go: Next
--   Daemon/ReloadGate      src/daemon/reload_gate.go: StartRequest, BeginReload, EndReload
--   Daemon/RenderPipeline  src/daemon/render_pipeline.go
--   Daemon/RenderSlots     src/daemon/daemon.go: StartRender, NextUpdate, completeRender, Reset
--   Daemon/Cancel          src/daemon/cancel.go
--   Daemon/Registry        src/daemon/registry.go
--   Daemon/DeviceCache     src/daemon/cache.go
--   Daemon/SessionStore    src/daemon/session_store.go
--   Daemon/ProcessTracker  src/daemon/process_tracker.go
--   Daemon/IdleTimer       src/daemon/daemon.go: scheduleIdleStopLocked, registerSessionPID, CompleteSession, stop
--   Daemon/Toggles         src/daemon/daemon.go: SessionToggles, ToggleSegment, syncConfigToggles
--   Color/Palette          src/color/palette.go
--   Color/Keywords         src/color/keywords.go: isKeyword, Resolve
--   Color/Cycle            src/color/cycle.go
--   Cache/Duration         src/cache/duration.go
--   Cache/Store            src/cache/store.go: Get, Set, Delete, DeleteAll; src/cache/cache.go
--   Config/Responsive      src/config/responsive.go
--   Config/Segment         src/config/segment.go, and its children Execution (Execute, Render) and Placeholder
--   Template/Choice        src/template/list.go
--   Prompt/CacheModel      src/prompt/cache_model.go
--   Prompt/Layout          src/prompt/layout.go
--   Prompt/Streaming       src/prompt/streaming.go: PrimaryStreaming, and its children Publish
--                          (publishStreamingResults, PrimaryRepaint), Workers (executeStreamingSegment; also
--                          src/prompt/shared_provider.go) and Blocks (writeBlockSegmentsStreaming)
--   Prompt/Engine          src/prompt/engine.go: canWriteRightBlock, shouldFill, appendRightPromptLine;
--                          src/prompt/streaming.go: renderBlockWithText
--   Color/Ansi             src/color/colors.go: Set, Ansi, Defaults, PaletteColors, and its child Cached
--   Terminal/History       src/color/colors.go: History
--   Terminal/Anchor        src/terminal/writer.go: AnchorRegex, the known styles
--   Terminal/Output        src/terminal/writer.go: write, writeRaw, writeEscapedAnsiString, shellClockTokenEnd
--   Terminal/Coloring      src/terminal/writer.go: asAnsiColors, writeSegmentColors, writeAnchorOverride,
--                          endColorOverride
--   Terminal/Writer        src/terminal/writer.go: Write, String
--   Terminal/Modes         the same functions in plain and in coloured terminals
--   Terminal/Sequences     src/terminal/writer.go: ChangeLine, Pwd, FormatTitle, and other sequences
--   Shell/Formats          src/shell/formats.go
--   Shell/Quoting          src/shell/bash.go, fish.go, pwsh.go: QuotePosixStr, quoteFishStr, quotePwshOrElvishStr
--   Text/Percentage        src/text/percentage.go
--   Prelude                Boolean tests, lists, integers, maps, runes and outcomes that these share
--
-- State is passed explicitly: a method of Go is a function from the state to its result and the new
-- state. A method that holds its mutex is one step. Where a method gives its lock up and takes it again,
-- its sections are definitions of their own in the reload gate, in the daemon's renders
-- (Daemon/RenderSlots), in the registration of a process (Daemon/IdleTimer) and in a lookup of the
-- device cache, and calls that overlap are sequences of sections. The other methods are one step, those
-- of the registry and the pipeline too, and so are the calls in Daemon/RenderSlots/Runs. Maps are association lists, in which a
-- deleted key is gone; pointers that callers keep (channels, hubs, contexts) are numbers. A panic of
-- Go is an outcome (Prelude/Outcome), as is a wait that nothing ends.
--
-- Bounds: `uint64` counters wrap (% 2 ^ 64) and the theorems about runs assume fewer calls than
-- that; the relay's loop has as fuel the number of updates that the stream has not seen, plus one,
-- which its theorem shows to be enough; a palette is resolved with the depth that the code allows as
-- fuel, and a colour keyword in three rounds where it ends.
--
-- Not modelled: gRPC and sockets, files and their watchers, the operating system's process list, the
-- decoding of the configuration, the segments themselves, text/template, the command line and the
-- shell scripts. `prompt.New` is
-- a parameter of the registry and what an engine draws one of the render pipeline;
-- `time.ParseDuration` is one of the durations, and the store of toggles an argument of the daemon's
-- toggles. The environment, the writers of segments and the libraries that a segment calls are the
-- fields of one record, `Host`. What a `select` of the streaming code receives is an event, and the
-- theorems hold for every sequence of events. The widths of runes, the ANSI codes that gookit/color
-- computes, and the rendering of a filler are fields of the records `Terminal`, `Gookit` and `Host`;
-- the variables of the terminal package are the records `Terminal`, which `Write` reads, and `Writer`,
-- which it changes, and a text is a list of runes.
pub mod Prelude
pub mod Daemon
pub mod Color
pub mod Cache
pub mod Config
pub mod Template
pub mod Prompt
pub mod Text
pub mod Shell
pub mod Terminal
