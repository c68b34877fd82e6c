-- ===== src/WebSocket.antt =====
-- src/httpd_websocket.c: frames, the queue of frames, and the connection's states.
pub mod EvBuffer
pub mod Frame
pub mod Mask
pub mod Wire
pub mod Header
pub mod Payload
pub mod Parse
pub mod Create
pub mod Request
pub mod Events
pub mod Api
pub mod Life
pub mod Steps
pub mod Sound
pub mod Cleanup
pub mod Invariant
pub mod Drains
pub mod Calls
pub mod Waiting
pub mod Control
pub mod Accept
pub mod Accepted
pub mod Samples
mod Tests
