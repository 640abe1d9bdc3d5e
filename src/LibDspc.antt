-- ===== src/LibDspc.antt =====
-- LibDspc.cpp: the text helpers, in the children. Texts are lists of bytes.
pub mod Hex
pub mod Dump
pub mod Strings
pub mod Url
pub mod Tests
