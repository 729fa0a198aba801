-- ===== src/StringBasic.antt =====
-- j2_library/src/string/string_basic.cpp, a module for each family of its functions.
pub mod Affix
pub mod Case
pub mod Replace
pub mod Shape
pub mod Split
pub mod Trim
pub mod Wildcard
mod Tests
