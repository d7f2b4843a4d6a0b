-- ===== src/Daemon/Hook.antt =====
-- internal/daemon/cdihook.go and internal/daemon/clientconfig.go: what the hook does when a container
-- is created.
pub mod Files
pub mod Published
pub mod Exchange
pub mod Stage
pub mod Attempts
pub mod Named
pub mod Reuse
pub mod Container
pub mod Copied
pub mod Staged
pub mod TestCodec
pub mod TestNode
mod Tests
