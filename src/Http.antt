-- ===== src/Http.antt =====
-- internal/middleware, internal/api: what stands between a request and the services. A request is what gin has read
-- of it; a response is its status and its body.
mod Request
mod Guards
mod Handlers
mod Service
mod Routes
pub mod Admission
pub mod Statuses
pub mod Creation
pub mod Sessions
mod Tests
unfoldable pub use Request.*
unfoldable pub use Guards.*
unfoldable pub use Handlers.*
unfoldable pub use Service.*
unfoldable pub use Routes.*
