-- ===== src/Daemon/Session.antt =====
-- internal/daemon/session.go and the stop reports of internal/daemon/render.go.
pub mod Source
pub mod Logpoint
pub mod Report
pub mod Stop
pub mod Keeps
pub mod Ends
pub mod Resume
