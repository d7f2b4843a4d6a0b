-- ===== src/Operator.antt =====
-- The inventory operator (internal/operator).
pub mod Inventory
pub mod Labels
pub mod Slices
pub mod Publish
pub mod Orphans
mod Tests
