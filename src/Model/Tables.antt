-- ===== src/Model/Tables.antt =====
-- The tables, and what the database keeps beside them.
use twirl.Prelude.{ℕ, List}
use twirl.Model.Bookings.{Booking, BookingEvent, ItemConditionEvent}
use twirl.Model.Shops.{Shop, ShopUser, ShopCustomer}
use twirl.Model.Catalog.{Style, StyleImage, Item}
use twirl.Model.Users.{User, Notification}

pub record Db : Type 0 where
  pub shops : List Shop
  pub shop_users : List ShopUser
  pub shop_customers : List ShopCustomer
  pub styles : List Style
  pub style_images : List StyleImage
  pub items : List Item
  pub users : List User
  pub bookings : List Booking
  pub booking_events : List BookingEvent
  pub item_condition_events : List ItemConditionEvent
  pub notifications : List Notification
  -- the next value of each sequence, which no rollback takes back
  pub booking_seq : ℕ
  pub user_seq : ℕ
  pub notification_seq : ℕ
  pub image_seq : ℕ
  pub shop_seq : ℕ
  pub closure_seq : ℕ
  pub style_seq : ℕ
  pub item_seq : ℕ
  -- how many characters `secrets.choice` has drawn
  pub drawn : ℕ
  -- now(), the start of the transaction, in microseconds
  pub now : ℕ
