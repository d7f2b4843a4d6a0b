-- ===== src/Daemon/Cdi.antt =====
-- internal/daemon/store.go and internal/daemon/cdihook.go: the CDI device of a claim, the arguments of
-- its hook, and what the hook does.
pub mod Options
pub mod Hooks
pub mod Sorted
pub mod Ordered
pub mod Flags
pub mod Parsed
pub mod Env
pub mod Device
pub mod SpecNames
pub mod Staged
pub mod StagedId
pub mod Tests
mod DeviceTests
