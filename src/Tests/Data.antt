-- ===== src/Tests/Data.antt =====
-- A shop with one style in two sizes, a renter, and a booking of the first item.
use twirl.Prelude.{
  arith, inl, inr, ℕ, ◌-◌, true, false, ◌&&◌, none, some, [], ◌∷◌, ◌++◌, Text, codes, show, length,
  text_leb, is_empty, leb, if◌then◌else◌,
}
use twirl.Host.{Host}
use twirl.Session.Rows.{Distinct}
use twirl.Dates.{ShopRules}
use twirl.Model.{
  Db, Shop, ShopStatus, BookingMode, ShopKind, ShopRole, Style, Item, ItemStatus, User, UserKind,
  Booking, BookingKind, BookingStatus, Actor, ActorKind,
}

-- A number parses unless it is empty, and is written with its length; letters have ASCII capitals.
abbrev pub sample_host : Host
sample_host = record {
  parse_number = λ s. if is_empty s then none else some (length s);
  is_valid_number = λ n. leb 3 n;
  format_e164 = λ n. codes "+383" ++ show n;
  strftime = λ n. show n;
  random = λ n. n;
  upper = λ c. if leb 97 c && leb c 122 then (c - 32) ∷ [] else c ∷ [];
  nfkd = λ s. s;
  is_digit = λ c. leb 48 c && leb c 57;
  decimal_of = λ c. if leb 48 c && leb c 57 then some (c - 48) else none;
  collate = text_leb;
}

abbrev pub sample_shop : Shop
sample_shop = record {
  id = 1;
  slug = codes "salon";
  name = codes "Salon";
  city = codes "Prizren";
  address = codes "Rruga 1";
  phone = none;
  whatsapp = none;
  viber = none;
  instagram = none;
  terms_text = [];
  pickup_lead_days = 1;
  return_after_days = 1;
  prep_days = 1;
  cleaning_days = 1;
  max_rental_days = 7;
  booking_mode = BookingMode.request;
  status = ShopStatus.published;
  kind = ShopKind.salon;
  verified_at = none;
  terms_accepted_at = none;
  terms_version = none;
  onboarding_completed_at = none;
  hours = record { weekday = 6; opens = none; closes = none; closed = true } ∷ [];
  closures = [];
}

abbrev pub sample_style : Style
sample_style = record {
  id = 1;
  shop_id = 1;
  code = codes "A1";
  name = codes "Aurora";
  description = [];
  price_cents = 9000;
  occasion_tags = [];
  category = none;
  internal_ref = none;
  colour_family = none;
  length = none;
  stretch = false;
  adjustable_back = false;
  published = true;
  deleted_at = none;
  created_at = 0;
}

abbrev pub sample_item : ℕ → Text → Item
sample_item id size = record {
  id = id;
  shop_id = 1;
  style_id = 1;
  code = codes "AC" ++ show id;
  size = size;
  status = ItemStatus.active;
  notes = [];
}

abbrev pub sample_renter : User
sample_renter = record {
  id = 1;
  kind = UserKind.renter;
  name = codes "Arta";
  phone = some (codes "+3839");
  email = none;
  password_hash = none;
  locale = codes "sq";
  blocked_at = none;
  phone_verified_at = none;
}

abbrev pub sample_owner : User
sample_owner = record {
  id = 2;
  kind = UserKind.shop;
  name = codes "Besa";
  phone = none;
  email = some (codes "besa@salon");
  password_hash = none;
  locale = codes "sq";
  blocked_at = none;
  phone_verified_at = none;
}

abbrev pub desk : Actor
desk = record { kind = ActorKind.shop; id = some 2 }

abbrev pub sample_booking : (id item_id pickup return_ : ℕ) → BookingStatus → Booking
sample_booking id item_id pickup return_ status = record {
  id = id;
  ref = codes "REF" ++ show id;
  shop_id = 1;
  item_id = item_id;
  style_id = 1;
  customer_id = some 1;
  kind = BookingKind.online;
  status = status;
  event_date = none;
  pickup_date = pickup;
  return_date = return_;
  prep_days = 1;
  cleaning_days = 1;
  expires_at = none;
  source_channel = none;
  fee_cents = 0;
  price_cents = 9000;
  customer_note = [];
  staff_note = [];
  reason = [];
  created_by = none;
  created_at = 0;
}

abbrev pub sample_db : Db
sample_db = record {
  shops = sample_shop ∷ [];
  shop_users = record { shop_id = 1; user_id = 2; role = ShopRole.owner } ∷ [];
  shop_customers = [];
  styles = sample_style ∷ [];
  style_images = [];
  items = sample_item 1 (codes "38") ∷ sample_item 2 (codes "40") ∷ [];
  users = sample_renter ∷ sample_owner ∷ [];
  bookings =
      sample_booking 10 1 739889 739891 BookingStatus.confirmed
      ∷ sample_booking 11 1 739903 739905 BookingStatus.pending_shop
      ∷ [];
  booking_events = [];
  item_condition_events = [];
  notifications = [];
  booking_seq = 12;
  user_seq = 3;
  notification_seq = 1;
  image_seq = 1;
  shop_seq = 2;
  closure_seq = 1;
  style_seq = 2;
  item_seq = 3;
  drawn = 0;
  now = 0;
}

-- the rules of the sample shop
abbrev pub sample_rules : ShopRules
sample_rules = record {
  pickup_lead_days = 1;
  return_after_days = 1;
  prep_days = 1;
  cleaning_days = 1;
  max_rental_days = 7;
  closed_weekdays = 6 ∷ [];
  closures = [];
}

-- the bookings have distinct keys
pub sample_keys : Distinct sample_db.bookings
sample_keys = (λ c i. elim i [ inl e ↦ ground arith | inr n ↦ elim n [ ] ], (λ c i. elim i [ ], tt))
