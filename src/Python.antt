-- ===== src/Python.antt =====
-- What the program uses of Python itself: exceptions, `int` and `str` on decimal text, byte strings.
pub mod Result
pub mod Bytes
pub mod Decimal
pub mod Settled
pub mod IntSet
pub mod Range
pub mod IntDict
pub mod Struct
pub mod Xor
