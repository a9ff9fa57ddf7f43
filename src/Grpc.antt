-- ===== src/Grpc.antt =====
-- internal/grpc: the gRPC handlers of the registry, of the admin API and of validation.
pub mod Messages
pub mod Mapping
pub mod Ports
pub mod Checks
pub mod Handler
pub mod AdminHandler
pub mod ValidationHandler
pub mod Requests
pub mod Names
pub mod Judgement
pub mod Upserts
