-- ===== src/Daemon.antt =====
-- The node daemon (internal/daemon).
pub mod Config
pub mod Status
pub mod Zone
pub mod Nvidia
pub mod Reconcile
pub mod Driver
pub mod Clients
pub mod Cdi
pub mod Hook
pub mod Guest
pub mod Program
