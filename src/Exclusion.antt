-- ===== src/Exclusion.antt =====
-- The exclusion constraint as an invariant of the database, operation by operation.
pub mod Writes
pub mod Holders
pub mod Steps
pub mod Staff
pub mod Walkin
pub mod Requests
