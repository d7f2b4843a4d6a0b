-- ===== src/Daemon/Reconcile.antt =====
-- internal/daemon/reconcile.go: the loop that keeps a node enrolled and serving. A method that
-- changes the reconciler returns it anew, with the world after its calls and the lines it logged.
mod Defs
pub mod Backoff
pub mod Setup
pub mod Installs
pub mod Repair
pub mod Justified
pub mod Passes
unfoldable pub use Defs.*
mod Tests
