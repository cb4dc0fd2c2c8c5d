-- ===== src/Python.antt =====
-- Python values as the program meets them: JSON data, exceptions, and the built-in functions
-- whose results the model takes as given.
pub mod Decimal
pub mod Value
pub mod Try
pub mod Dicts
pub mod Equality
