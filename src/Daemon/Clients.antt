-- ===== src/Daemon/Clients.antt =====
-- internal/daemon/store.go: the ThunderClient of a claim as a Kubernetes object, and the store that
-- keeps it.
pub mod Object
pub mod RoundTrip
pub mod Store
pub mod Laws
pub mod Recorded
pub mod Deleted
pub mod Tests
