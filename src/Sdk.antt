-- ===== src/Sdk.antt =====
-- client/client.go, `MizuClient`: the features that an SDK client keeps, how they follow the stream, and how a flag
-- is evaluated.
mod Client
mod Lines
mod Storage
mod Loop
pub mod Updates
pub mod Rollout
pub mod Persists
pub mod Waits
pub mod Typed
pub mod Targets
pub mod Turns
pub mod Watchdog
mod Tests
unfoldable pub use Client.*
unfoldable pub use Lines.*
unfoldable pub use Storage.*
unfoldable pub use Loop.*
