-- ===== src/ByteArray.antt =====
-- src/bytearray.h and src/bytearray.c: a growable byte buffer with a write and a read mode.
-- A function that updates `*ba` returns the new record beside its result. `size_t` arithmetic wraps
-- as in C. A `double` is its 64-bit pattern. The pointer `ba` itself is never NULL here; `buffer`
-- may be. The public names and the `_optimized` ones that they call are one definition each.
pub mod State
pub mod Grow
pub mod Write
pub mod Read
pub mod Mode
pub mod Capacity
pub mod Inv
pub mod Contents
pub mod Reads
pub mod Modes
pub mod StaleMark
pub mod Script
pub mod Refine
pub mod Append
pub mod Samples
mod Tests
