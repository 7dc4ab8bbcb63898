-- ===== src/Tests.antt =====
-- The theorems about the program, applied at small inputs.
pub mod Data
pub mod Tables
pub mod Code
pub mod Values
pub mod Programs
pub mod Sources
pub mod Runs
pub mod Strings
