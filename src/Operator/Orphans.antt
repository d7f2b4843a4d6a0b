-- ===== src/Operator/Orphans.antt =====
-- ThunderClients whose ResourceClaim is gone (internal/operator/clients.go).
pub mod Defs
pub mod Grace
pub mod Release
