-- ===== src/Go.antt =====
-- What the program uses of Go's language and standard library.
pub mod Errors
pub mod Strings
pub mod Hex
pub mod Base64
pub mod Strconv
pub mod Duration
pub mod Subtle
