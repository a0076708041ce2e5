-- ===== src/Python.antt =====
-- What the client uses of Python itself: exceptions, `struct`, `bytes`, `enum.IntEnum`.
pub mod Result
pub mod Struct
pub mod Enum
pub mod Float
pub mod Dict
pub mod Text
