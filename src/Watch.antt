-- ===== src/Watch.antt =====
-- internal/service/feature.go, `FeatureService.Run`: the watch on etcd that feeds the cache, the ring of
-- recent messages and the hub.
mod Events
pub mod Effects
pub mod Snapshot
pub mod Resync
pub mod Run
mod Tests
unfoldable pub use Events.*
