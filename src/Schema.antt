-- ===== src/Schema.antt =====
-- internal/schema: the domain model, the interfaces that the service is written against, and the
-- service itself.
pub mod Model
pub mod Ports
pub mod CacheKey
pub mod Service
pub mod Deletion
pub mod Serving
pub mod Steps
pub mod Reachable
pub mod Overlap
pub mod Recording
pub mod Concurrent
pub mod Keys
