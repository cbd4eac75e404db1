-- ===== src/Staff/Walkin.antt =====
-- booking/staff.py: `create_staff_booking`, with the override that displaces online bookings.
use twirl.Prelude.{
  ℕ, ◌-◌, Bool, true, false, not, ◌&&◌, ◌||◌, Option, none, some, List, [], ◌∷◌, ◌++◌, Text, codes,
  strip, is_empty, take, text_eq, all, find, ltb, ◌==◌, if◌then◌else◌,
}
use twirl.Exec.{Exec, Result, ok, err, and_then, pure, raise, lift, gets, ◌>>=◌, ◌>>◌}
use twirl.Errors.{Error, invalid_dates, return_before_pickup, too_long, item_conflict, value_error}
use twirl.Host.{Host, normalize_phone, upper_text}
use twirl.Model.{
  Db, Booking, BookingKind, BookingStatus, Actor, Item, Shop, Style, pending_shop, confirmed,
  at_risk, picked_up, declined, is_online, booking_at_risk_admin,
}
use twirl.Session.{one}
use twirl.Timeline.{record_created, transition}
use twirl.Customers.{get_or_create_customer, link_customer}
use twirl.Codes.{new_booking_ref}
use twirl.Notify.{notify_admin, booking_payload}
use twirl.Availability.{overlapping_bookings}
use twirl.Dates.{blocked_range}
use twirl.Staff.Actions.{load_item, insert_or_conflict}

abbrev pub max_staff_rental_days : ℕ
max_staff_rental_days = 30

-- `status in OVERRIDABLE`
abbrev pub is_overridable : BookingStatus → Bool
is_overridable pending_shop = true
is_overridable confirmed = true
is_overridable _ = false

-- What an override may displace: online bookings that have not been picked up.
abbrev pub can_displace : Booking → Bool
can_displace c = is_online c.kind && is_overridable c.status

unfoldable pub find_item_by_code : Host → ℕ → Text → Db → Option Item
find_item_by_code host shop_id code db =
    find (λ (i : Item). i.shop_id == shop_id && text_eq i.code (upper_text host (strip code)))
      db.items

pub record StaffBooking : Type 0 where
  pub shop_id : ℕ
  pub item_id : ℕ
  pub pickup : ℕ
  pub return_ : ℕ
  pub name : Text
  pub phone : Text
  pub actor : Actor
  pub kind : BookingKind
  pub picked_up_now : Bool
  pub override_reason : Option Text
  pub note : Text

-- The refusals before any query, the phone in E.164, and the window.
unfoldable pub check_staff_dates : Host → StaffBooking → Shop → Item → Result Error (Text × ℕ × ℕ)
check_staff_dates host r shop item =
    if not (item.shop_id == shop.id)
    then err value_error
    else if ltb r.return_ r.pickup
    then err (invalid_dates return_before_pickup)
    else if ltb max_staff_rental_days (r.return_ - r.pickup)
    then err (invalid_dates too_long)
    else and_then (normalize_phone host r.phone) λ phone.
      and_then
        (blocked_range (record { pickup = r.pickup; return_ = r.return_ }) shop.prep_days
          shop.cleaning_days)
        λ window. ok (phone, window.0, window.1)

-- `(override_reason or "").strip()`
abbrev pub stripped : Option Text → Text
stripped none = []
stripped (some reason) = strip reason

abbrev pub taken_in_store : Text → Text
taken_in_store reason = codes "item taken in store: " ++ reason

-- The branch of a displaced booking that the shop had confirmed.
unfoldable pub put_at_risk : Host → Actor → Text → ℕ → Exec Db Error (Unit {0})
put_at_risk host actor reason id = do
  row ← transition id at_risk actor (taken_in_store reason)
  payload ← gets (booking_payload host row)
  notify_admin booking_at_risk_admin (payload ++ (codes "reason", reason) ∷ [])

-- The test on `conflict.status`, which nothing has changed since the rows were read.
unfoldable pub displace_as :
    Host → Actor → Text → Booking → BookingStatus → Exec Db Error (Unit {0})
displace_as host actor reason c pending_shop =
    transition c.id declined actor (taken_in_store reason) >>= λ _. pure tt
displace_as host actor reason c _ = put_at_risk host actor reason c.id

unfoldable pub displace : Host → Actor → Text → Booking → Exec Db Error (Unit {0})
unfolding displace_as
displace host actor reason c = displace_as host actor reason c c.status

unfoldable pub displace_all : Host → Actor → Text → List Booking → Exec Db Error (Unit {0})
displace_all host actor reason [] = pure tt
displace_all host actor reason (c ∷ cs) =
    displace host actor reason c >> displace_all host actor reason cs

unfoldable pub override : Host → Actor → Text → List Booking → Exec Db Error (Unit {0})
override host actor reason conflicts =
    if not (all can_displace conflicts) || is_empty reason
    then raise (item_conflict conflicts (all can_displace conflicts))
    else displace_all host actor reason conflicts

unfoldable pub clear_way : Host → Actor → Text → List Booking → Exec Db Error (Unit {0})
clear_way host actor reason [] = pure tt
clear_way host actor reason (c ∷ cs) = override host actor reason (c ∷ cs)

abbrev pub new_staff_booking : Text → StaffBooking → Shop → Item → ℕ → ℕ → Booking
new_staff_booking ref r shop item customer_id price_cents = record {
  id = 0;
  ref = ref;
  shop_id = shop.id;
  item_id = item.id;
  style_id = item.style_id;
  customer_id = some customer_id;
  kind = r.kind;
  status = confirmed;
  event_date = none;
  pickup_date = r.pickup;
  return_date = r.return_;
  prep_days = shop.prep_days;
  cleaning_days = shop.cleaning_days;
  expires_at = none;
  source_channel = some (codes "staff");
  fee_cents = 0;
  price_cents = price_cents;
  customer_note = [];
  staff_note = take 500 (strip r.note);
  reason = [];
  created_by = r.actor.id;
  created_at = 0;
}

unfoldable pub load_shop : ℕ → Exec Db Error Shop
load_shop id db = (one (find (λ (s : Shop). s.id == id) db.shops), db)

unfoldable pub load_style : ℕ → Exec Db Error Style
load_style id db = (one (find (λ (s : Style). s.id == id) db.styles), db)

-- From the customer to the stored row, once nothing is in the way.
unfoldable pub write_staff_booking :
    Host → StaffBooking → Shop → Item → Text → ℕ → ℕ → Exec Db Error Booking
write_staff_booking host r shop item phone start end = do
  customer ← get_or_create_customer phone r.name
  ref ← new_booking_ref host
  style ← load_style item.style_id
  row ←
      insert_or_conflict (new_staff_booking ref r shop item customer.id style.price_cents) start end
  record_created row r.actor
  link_customer shop.id customer.id
  pure row

unfoldable pub hand_over : Bool → Actor → Booking → Exec Db Error Booking
hand_over picked_up_now actor row =
    if picked_up_now then transition row.id picked_up actor [] else pure row

unfoldable pub create_staff_booking : Host → StaffBooking → Exec Db Error Booking
create_staff_booking host r = do
  shop ← load_shop r.shop_id
  item ← load_item r.item_id
  checked ← lift (check_staff_dates host r shop item)
  conflicts ← gets (overlapping_bookings item.id checked.1 checked.2)
  clear_way host r.actor (stripped r.override_reason) conflicts
  row ← write_staff_booking host r shop item checked.0 checked.1 checked.2
  hand_over r.picked_up_now r.actor row
