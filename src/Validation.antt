-- ===== src/Validation.antt =====
-- internal/validation.
pub mod Chargeflow
pub mod Adapter
pub mod Service
pub mod Bulk
pub mod Routing
pub mod Failure
