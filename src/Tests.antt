-- ===== src/Tests.antt =====
-- Examples of the theorems, at concrete values.
pub mod Database
pub mod Code
pub mod Objects
pub mod Counts
pub mod Server
pub mod Remote
pub mod Turns
pub mod Files
pub mod Run
pub mod Keys
