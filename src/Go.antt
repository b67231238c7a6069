-- ===== src/Go.antt =====
-- The parts of Go's standard library that the program computes with.
pub mod Strconv
pub mod FilePath
pub mod Json
pub mod Url
pub mod Multipart
pub mod Base64
pub mod Base32
pub mod Strings
