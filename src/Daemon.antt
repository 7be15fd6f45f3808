-- ===== src/Daemon.antt =====
-- internal/daemon.
pub mod Args
pub mod Render
pub mod State
pub mod Logic
pub mod Session
pub mod Commands
pub mod Host
pub mod Start
pub mod Launch
pub mod Trace
pub mod Dispatch
pub mod Usage
pub mod Serve
pub mod Life
