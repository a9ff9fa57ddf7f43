-- ===== src/Pagination.antt =====
-- internal/pagination: page tokens and page sizes.
pub mod Token
pub mod RoundTrip
pub mod Walk
pub mod Bounds
