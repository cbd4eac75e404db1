-- ===== src/Search.antt =====
-- search.py: the marketplace search.
pub mod Days
pub mod Windows
pub mod Rentable
pub mod Paging
pub mod Cards
pub mod Found
pub mod Shortcuts
pub mod Options
pub mod Pages
