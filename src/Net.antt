-- ===== src/Net.antt =====
-- What the program uses of Go's standard library on addresses and texts.
pub mod Strings
pub mod Ip
pub mod Url
