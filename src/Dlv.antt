-- ===== src/Dlv.antt =====
-- internal/dlv: the data that Delve's server returns, the client's calls, and the captured output
-- of the target.
pub mod Types
pub mod Client
pub mod Proc
pub mod Spawn
pub mod Dial
