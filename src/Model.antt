-- ===== src/Model.antt =====
-- models/*.py: the rows of the tables, and the database as one value.
mod Bookings
mod Shops
mod Catalog
mod Users
mod Tables
unfoldable pub use Bookings.*
pub use Shops.*
pub use Catalog.*
pub use Users.*
pub use Tables.*
