-- ===== src/Libc.antt =====
-- Userland/SampleCodeModule/libraries/libc.c: the strings and numbers of the programs. A C string is
-- the list of its characters, bytes none of which is the final 0.
pub mod Numbers
mod Reverse
mod Numerals
mod RoundTrip
pub mod Strings
pub mod Format
mod Render
pub mod Input
pub mod Lines
pub mod Scan
mod Typed
mod Tests
