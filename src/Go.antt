-- ===== src/Go.antt =====
-- What the program uses of Go's standard library, over texts as lists of runes.
pub mod Unicode
pub mod Strings
pub mod Strconv
pub mod Maps
pub mod Ints
pub mod Types
pub mod Slices
