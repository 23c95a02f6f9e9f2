-- ===== src/Frame.antt =====
-- FRAME, the compositor: crates/frame/src.
pub mod Config
pub mod Platform
pub mod State
pub mod Toplevel
pub mod Keybind
pub mod Lock
pub mod Input
pub mod Server
pub mod Coherence
pub mod Windows
pub mod Panel
pub mod Render
pub mod Shortcuts
pub mod System
pub mod Stale
pub mod Locked
pub mod Answers
pub mod Idle
pub mod Xwm
mod Tests
