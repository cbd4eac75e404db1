-- ===== src/Tests.antt =====
-- Sample data, tests that run the operations on it, and the theorems at concrete inputs.
pub mod Data
pub mod Examples
pub mod Served
pub mod Jobs
pub mod Search
pub mod Wizard
pub mod Storefront
pub mod Backoffice
pub mod Login
pub mod Boards
pub mod Otp
