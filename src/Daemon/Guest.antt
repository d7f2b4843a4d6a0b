-- ===== src/Daemon/Guest.antt =====
-- internal/daemon/store.go: the Secret that a VM guest sets itself up from.
pub mod Store
pub mod Names
mod Tests
