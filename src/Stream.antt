-- ===== src/Stream.antt =====
-- src/stream_ffi.c: the wire formats of fan.stream on top of the byte array.
pub mod Add
pub mod Get
pub mod Varint
pub mod U30
pub mod Text
pub mod Fixed
pub mod Message
pub mod RoundTrip
mod Tests
