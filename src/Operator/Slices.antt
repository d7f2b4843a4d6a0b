-- ===== src/Operator/Slices.antt =====
-- ResourceSlices of a pool: how its devices are spread over slices (internal/operator/resourceslice.go).
pub mod Defs
pub mod Shards
