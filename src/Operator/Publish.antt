-- ===== src/Operator/Publish.antt =====
-- Publication of a pool: generations and the calls that bring its slices up to date
-- (internal/operator/operator.go).
pub mod Same
pub mod Defs
pub mod Generations
pub mod Stable
