-- ===== src/Daemon/Args.antt =====
-- The command-line helpers of internal/daemon/commands.go: `parseArgs`, `first`, `has`,
-- `launchMode`, `normalizeTestArgs`, `splitList`. Go's maps are association lists here.
pub mod Flags
pub mod Laws
pub mod Modes
pub mod RoundTrip
pub mod Spaced
unfoldable pub use Flags.*
