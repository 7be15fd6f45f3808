-- ===== src/Client.antt =====
-- internal/client/client.go: how a command reaches the daemon of its project.
pub mod Root
pub mod Link
pub mod Send
