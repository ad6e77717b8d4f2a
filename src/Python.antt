-- ===== src/Python.antt =====
-- What the model uses of the Python language and its standard library: integers, floats as far as
-- they are compared, texts, dicts, values of any type, and calls that may raise.
pub mod Int
pub mod Float
pub mod Text
pub mod Dict
pub mod Value
pub mod Time
