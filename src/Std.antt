-- ===== src/Std.antt =====
-- What the program uses of the C++ standard library's text conversions.
pub mod Decimal
pub mod Stream
