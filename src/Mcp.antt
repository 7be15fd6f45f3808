-- ===== src/Mcp.antt =====
-- internal/mcp/mcp.go: the tools, their schemas and argument vectors, and the server.
pub mod Json
pub mod Argv
pub mod Schema
pub mod Tools
pub mod Serve
