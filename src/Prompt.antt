-- ===== src/Prompt.antt =====
-- src/prompt: the engine that draws a prompt from its segments.
pub mod CacheModel
pub mod Layout
pub mod Streaming
pub mod Engine
mod EngineTests
mod Samples
mod Tests
mod StreamingTests
mod LayoutTests
