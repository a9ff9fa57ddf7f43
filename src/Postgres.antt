-- ===== src/Postgres.antt =====
-- internal/storage/postgres: the repository over PostgreSQL, through gorm.
pub mod Model
pub mod Gorm
pub mod Query
pub mod Repository
pub mod Tables
pub mod Changelog
pub mod Insertion
pub mod Upsert
pub mod Evolution
pub mod Versions
pub mod Lookup
pub mod Rollback
pub mod Listing
pub mod Reading
pub mod Spec
pub mod Represents
pub mod Verifying
pub mod Paging
pub mod Outcomes
pub mod Refinement
