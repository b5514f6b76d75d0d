-- ===== src/Base.antt =====
-- The names that every other module shares: the libraries', passed on, and those of the children.
pub mod Names
pub mod Tests
pub mod Lists
pub mod Eq
pub mod Dict
pub mod Text
pub mod Sort
pub mod Int
pub mod Outcome
pub mod Float
pub mod Json
pub mod PyInt
