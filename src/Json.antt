-- ===== src/Json.antt =====
-- src/json.c: the JSON module.
pub mod Chars
pub mod Value
pub mod Text
pub mod Strbuf
pub mod Lua
pub mod Encode
pub mod Append
pub mod Stack
pub mod Stands
pub mod Loops
pub mod Encodes
pub mod Utf8
pub mod Api
pub mod Empty
pub mod Samples
mod Tests
pub mod Decode
pub mod Total
pub mod Atoms
pub mod Ends
pub mod Place
pub mod Answers
pub mod Escapes
pub mod Print
pub mod Spelled
pub mod Strings
pub mod Plain
pub mod Starts
pub mod Reads
pub mod Fields
pub mod Rounds
pub mod RoundTrip
