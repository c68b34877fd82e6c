-- ===== src/StreamLua.antt =====
-- src/stream.c: fan.stream as Lua calls it.
pub mod Calls
pub mod Message
pub mod RoundTrip
mod Tests
