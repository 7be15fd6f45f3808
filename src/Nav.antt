-- ===== src/Nav.antt =====
-- internal/nav/nav.go: finding declarations, and questions to gopls.
pub mod Syntax
pub mod Signature
pub mod Walk
pub mod Where
