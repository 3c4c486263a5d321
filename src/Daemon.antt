-- ===== src/Daemon.antt =====
-- src/daemon: the long-running process that renders prompts for the shells of a machine.
pub mod UpdateHub
pub mod StreamRelay
pub mod RenderPipeline
pub mod RenderSlots
pub mod ReloadGate
pub mod Cancel
pub mod Registry
pub mod DeviceCache
mod RenderTests
mod Tests
mod SessionTests
mod StoreTests
pub mod SessionStore
pub mod ProcessTracker
pub mod Toggles
pub mod IdleTimer
