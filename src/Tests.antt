-- ===== src/Tests.antt =====
-- A scripted debugger for the tests, and the theorems at concrete data.
pub mod Fixtures
pub mod Words
pub mod Runs
pub mod Wire
pub mod Tools
pub mod Ends
