-- ===== src/Text.antt =====
-- Go strings as lists of bytes, with the functions of `strings` and `strconv` that the program calls.
pub mod Defs
pub mod Space
pub mod Split
pub mod Decimal
pub mod Lists
pub mod Trim
pub mod Number
pub use Defs.*
