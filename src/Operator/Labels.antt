-- ===== src/Operator/Labels.antt =====
-- internal/operator/resourceslice.go: the names of devices, slices and pools. `digest` is the first ten
-- hexadecimal digits of SHA-256.
pub mod Defs
pub mod Valid
pub mod Distinct
unfoldable pub use Defs.*
