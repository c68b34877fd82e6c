-- ===== src/Fifo.antt =====
-- src/fifo.c: named pipes.
pub mod Pipe
pub mod Calls
pub mod Releases
pub mod Steps
mod Tests
