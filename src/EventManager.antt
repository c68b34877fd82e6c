-- ===== src/EventManager.antt =====
-- src/event_mgr.c: the event manager.
pub mod Manager
pub mod Sound
pub mod Running
pub mod Life
pub mod Stale
mod Tests
