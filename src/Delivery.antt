-- ===== src/Delivery.antt =====
-- The path of a change from the watch of a server (internal/service/feature.go, `Run` and `GetCompensation`) over its
-- event stream (internal/api/stream_handler.go, `WatchFeature`) into the features of a client (client/client.go,
-- `runWatchLoop` and `handleUpdate`).
pub mod Latest
pub mod Sent
pub mod Reaches
pub mod Agrees
mod Tests
