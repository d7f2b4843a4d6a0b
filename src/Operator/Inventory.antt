-- ===== src/Operator/Inventory.antt =====
-- internal/operator/inventory.go: the pools that should be published, from what Thunder reports.
-- GPU counts are ℕ: sums stay far below the range of int64.
pub mod Defs
pub mod Counts
pub mod Capacity
unfoldable pub use Defs.*
