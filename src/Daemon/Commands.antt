-- ===== src/Daemon/Commands.antt =====
-- The session's commands, internal/daemon/commands.go.
pub mod Breaks
pub mod Run
pub mod Inspect
pub mod WatchExpr
pub mod Select
pub mod Steady
pub mod Ends
