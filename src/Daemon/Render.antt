-- ===== src/Daemon/Render.antt =====
-- Variable rendering of internal/daemon/render.go: one line for a value, a tree for a list.
pub mod Inline
pub mod Tree
unfoldable pub use Inline.*
unfoldable pub use Tree.*
