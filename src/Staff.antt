-- ===== src/Staff.antt =====
-- booking/staff.py: what the people of a shop do with a booking. Objects are passed by id.
mod Actions
mod Walkin
mod Swap
pub mod Displaced
pub mod Cleared
pub mod Offered
pub mod Returned
unfoldable pub use Actions.*
unfoldable pub use Walkin.*
unfoldable pub use Swap.*
