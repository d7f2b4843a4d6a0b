-- ===== src/Daemon/Driver.antt =====
-- internal/daemon/driver.go: the DRA driver that the kubelet calls to prepare and unprepare claims.
mod Types
mod Defs
pub mod Claims
pub mod Accounts
pub mod Tokens
pub mod Release
pub mod Lifecycle
pub mod Decode
pub mod Issuer
pub use Types.*
unfoldable pub use Defs.*
mod DecodeTests
