-- ===== src/ObjectBuf.antt =====
-- src/objectbuf.c: the packer of Lua values.
pub mod Objects
pub mod Pack
pub mod Encode
pub mod Decode
pub mod Same
pub mod Covers
pub mod Packs
pub mod Bytes
pub mod Scalars
pub mod Restores
pub mod RoundTrip
pub mod ArrayPart
pub mod Readable
pub mod Ends
pub mod Total
mod Tests
