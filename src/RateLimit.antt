-- ===== src/RateLimit.antt =====
-- internal/middleware/ratelimit.go: the token bucket that Redis runs, and the limiter of each server for when Redis
-- fails. Times are microseconds, as `time.Now().UnixMicro()`, and tokens are counted in millionths of a token: the
-- sums of the script are exact in these units, where the script has doubles of seconds and tokens.
mod Script
mod Middleware
pub mod Expiry
pub mod Bound
pub mod Admits
mod Tests
unfoldable pub use Script.*
unfoldable pub use Middleware.*
