-- ===== src/Requests.antt =====
-- booking/requests.py: a renter asks for a dress. Other transactions run beside the request: they hold
-- row locks while it picks an item, and they commit between that choice and its flush.
pub mod Served
pub mod Stored
use twirl.Prelude.{
  ℕ, zero, suc, Bool, true, false, not, ◌&&◌, ◌||◌, Option, none, some, List, [], ◌∷◌, Text, codes,
  strip, take, first, where_, sort_by, find, leb, ◌==◌, if◌then◌else◌,
}
use twirl.Exec.{
  Exec, Result, ok, err, and_then, pure, raise, lift, gets, catch, nested, ◌>>=◌, ◌>>◌,
}
use twirl.Errors.{Error, not_bookable, no_availability, is_exclusion_violation}
use twirl.Host.{Host, normalize_phone}
use twirl.Model.{
  Db, Booking, BookingStatus, Actor, ActorKind, Item, Shop, Style, User, confirmed, pending_shop,
  online, is_published, is_instant, new_request_shop, new_request_admin,
}
use twirl.Session.{restore, one, insert_booking}
use twirl.Timeline.{record_created}
use twirl.Customers.{get_or_create_customer, link_customer}
use twirl.Codes.{new_booking_ref}
use twirl.Sizes.{normalize_size}
use twirl.Notify.{notify_admin, notify_shop_owners, booking_payload}
use twirl.Availability.{FreeQuery, free_items}
use twirl.Dates.{
  ShopRules, RentalDates, derive_rental_dates, validate_rental_dates, blocked_range, rules_for_shop,
}

pub record RentalRequest : Type 0 where
  pub style_id : ℕ
  pub size : Text
  pub event_date : ℕ
  pub name : Text
  pub phone : Text
  pub note : Text

-- The other transactions, seen from the attempt with `n` more to come.
pub record Rivals : Type 0 where
  -- the items that they have locked while the attempt picks one
  pub locks : ℕ → ℕ → Bool
  -- what they commit between that and the attempt's flush
  pub commits : ℕ → Db → Db

-- `style is None or not style.published or style.deleted_at is not None`, and the shop's status
unfoldable pub bookable_style : ℕ → Db → Result Error (Style × Shop)
bookable_style style_id db = elim (find (λ (s : Style). s.id == style_id) db.styles) [
  | none ↦ err not_bookable
  | some style ↦ elim style.deleted_at [
    | some _ ↦ err not_bookable
    | none ↦
        if style.published
        then (and_then (one (find (λ (s : Shop). s.id == style.shop_id) db.shops))
            λ shop. if is_published shop.status then ok (style, shop) else err not_bookable)
        else err not_bookable
  ]
]

-- What the request has worked out before it looks for an item.
pub record Plan : Type 0 where
  pub style : Style
  pub shop : Shop
  pub dates : RentalDates
  pub start : ℕ
  pub end : ℕ
  pub size : Text
  pub phone : Text

unfoldable pub make_plan : Host → RentalRequest → ℕ → Style × Shop → Result Error Plan
make_plan host req today (style, shop) =
    let rules = rules_for_shop shop in
    and_then (derive_rental_dates req.event_date rules) λ dates.
      and_then (validate_rental_dates dates rules today (some req.event_date)) λ _.
        and_then (blocked_range dates rules.prep_days rules.cleaning_days) λ window.
          and_then (normalize_size host req.size) λ size.
            and_then (normalize_phone host req.phone) λ phone. ok (record {
              style = style;
              shop = shop;
              dates = dates;
              start = window.0;
              end = window.1;
              size = size;
              phone = phone;
            })

abbrev pub plan_query : Plan → FreeQuery
plan_query p = record {
  start = p.start;
  end = p.end;
  style_id = some p.style.id;
  shop_id = none;
  size = some p.size;
}

-- ORDER BY id LIMIT 1 FOR UPDATE SKIP LOCKED
unfoldable pub pick_item : Plan → (ℕ → Bool) → Db → Option Item
pick_item p locked db = first (
    sort_by (λ i j. leb i.id j.id) (where_ (λ i. not (locked i.id)) (free_items (plan_query p) db)))

abbrev pub first_status : Shop → BookingStatus
first_status shop = if is_instant shop.booking_mode then confirmed else pending_shop

abbrev pub new_request : Text → RentalRequest → Plan → ℕ → ℕ → Booking
new_request ref req p item_id customer_id = record {
  id = 0;
  ref = ref;
  shop_id = p.shop.id;
  item_id = item_id;
  style_id = p.style.id;
  customer_id = some customer_id;
  kind = online;
  status = first_status p.shop;
  event_date = some req.event_date;
  pickup_date = p.dates.pickup;
  return_date = p.dates.return_;
  prep_days = p.shop.prep_days;
  cleaning_days = p.shop.cleaning_days;
  expires_at = none;
  source_channel = some (codes "storefront");
  fee_cents = 0;
  price_cents = p.style.price_cents;
  customer_note = take 500 (strip req.note);
  staff_note = [];
  reason = [];
  created_by = none;
  created_at = 0;
}

unfoldable pub others_commit : (Db → Db) → Exec Db Error (Unit {0})
others_commit f db = (ok tt, f db)

-- `continue` after an exclusion violation is `none`.
unfoldable pub lost_race : Error → Exec Db Error (Option Booking)
lost_race e = if is_exclusion_violation e then pure none else raise e

unfoldable pub try_insert : Booking → Exec Db Error (Option Booking)
try_insert b = catch (nested restore (insert_booking b >>= λ row. pure (some row))) lost_race

-- An online booking has a customer.
unfoldable pub link_if : ℕ → Option ℕ → Exec Db Error (Unit {0})
link_if shop_id none = pure tt
link_if shop_id (some id) = link_customer shop_id id

-- The rest of the round that stored a row.
unfoldable pub announce : Host → Booking → Exec Db Error Booking
announce host row = do
  record_created row (record { kind = ActorKind.renter; id = row.customer_id })
  link_if row.shop_id row.customer_id
  payload ← gets (booking_payload host row)
  notify_shop_owners row.shop_id new_request_shop payload
  notify_admin new_request_admin payload
  pure row

unfoldable pub after_insert : Host → Exec Db Error Booking → Option Booking → Exec Db Error Booking
after_insert host again none = again
after_insert host again (some row) = announce host row

-- One round of the loop with the item that it picked; `again` is the rest of the loop.
unfoldable pub round_with :
    Host
    → RentalRequest
    → Plan
    → ℕ
    → (Db → Db)
    → Exec Db Error Booking
    → Item
    → Exec Db Error Booking
round_with host req p customer_id commits again item = do
  ref ← new_booking_ref host
  others_commit commits
  stored ← try_insert (new_request ref req p item.id customer_id)
  after_insert host again stored

unfoldable pub round :
    Host
    → RentalRequest
    → Plan
    → ℕ
    → (Db → Db)
    → Exec Db Error Booking
    → Option Item
    → Exec Db Error Booking
round host req p customer_id commits again none = raise no_availability
round host req p customer_id commits again (some item) =
    round_with host req p customer_id commits again item

-- `for _ in range(max_attempts)`, over the attempts that are left
unfoldable pub attempts : Host → Rivals → RentalRequest → Plan → ℕ → ℕ → Exec Db Error Booking
attempts host rivals req p customer_id zero = raise no_availability
attempts host rivals req p customer_id (suc n) = do
  let again = attempts host rivals req p customer_id n
  picked ← gets (pick_item p (rivals.locks n))
  round host req p customer_id (rivals.commits n) again picked

unfoldable pub create_request : Host → Rivals → RentalRequest → ℕ → ℕ → Exec Db Error Booking
create_request host rivals req today max_attempts = do
  found ← gets (bookable_style req.style_id)
  target ← lift found
  p ← lift (make_plan host req today target)
  customer ← get_or_create_customer p.phone req.name
  attempts host rivals req p customer.id max_attempts
