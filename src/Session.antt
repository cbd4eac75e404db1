-- ===== src/Session.antt =====
-- The database session: what a flush writes, the constraints that Postgres checks of it (as
-- models/bookings.py declares them), and what a savepoint takes back.
pub mod Rows
use twirl.Prelude.{
  ℕ, suc, ◌+◌, Bool, true, false, not, ◌&&◌, ◌||◌, Option, none, some, List, [], ◌∷◌, ◌++◌, map,
  Text, text_eq, any, find, ltb, ◌==◌, if◌then◌else◌,
}
use twirl.Exec.{Exec, Result, ok, err, pure, raise, gets, ◌>>=◌, ◌>>◌}
use twirl.Errors.{Error, exclusion_violation, integrity_error, no_result}
use twirl.Model.{Db, Booking, BookingEvent, ItemConditionEvent, Item, User, excludes}

-- Rolling back to a savepoint: the rows of `s`, while sequences and drawn random numbers stay used.
abbrev pub restore : Db → Db → Db
restore s s' = record s {
  booking_seq = s'.booking_seq;
  user_seq = s'.user_seq;
  notification_seq = s'.notification_seq;
  image_seq = s'.image_seq;
  shop_seq = s'.shop_seq;
  closure_seq = s'.closure_seq;
  style_seq = s'.style_seq;
  item_seq = s'.item_seq;
  drawn = s'.drawn;
}

-- The exclusion constraint, of a row against the other rows of the table.
abbrev pub violates : Booking → List Booking → Bool
violates b rows = any (λ c. not (c.id == b.id) && excludes b c) rows

-- UNIQUE (ref)
abbrev pub ref_taken : Text → List Booking → Bool
ref_taken ref rows = any (λ c. text_eq c.ref ref) rows

-- The foreign keys: (item_id, style_id, shop_id) into items, and customer_id into users.
abbrev pub item_exists : Booking → List Item → Bool
item_exists b items =
    any (λ i. i.id == b.item_id && i.style_id == b.style_id && i.shop_id == b.shop_id) items

abbrev pub user_exists : Option ℕ → List User → Bool
user_exists none users = true
user_exists (some id) users = any (λ u. u.id == id) users

-- What INSERT answers, the constraints in the order in which Postgres checks them.
abbrev pub insert_error : Booking → Db → Option Error
insert_error b db =
    if ltb b.return_date b.pickup_date
    then some integrity_error
    else if ref_taken b.ref db.bookings
    then some integrity_error
    else if violates b db.bookings
    then some exclusion_violation
    else if item_exists b db.items && user_exists b.customer_id db.users
    then none
    else some integrity_error

abbrev pub insert_row : Option Error → Booking → Exec Db Error Booking
insert_row none b db = pure b (record db { bookings = db.bookings ++ b ∷ [] })
insert_row (some e) b db = raise e db

-- session.add(booking); session.flush(). The row takes its id from the sequence and its time from now().
unfoldable pub insert_booking : Booking → Exec Db Error Booking
unfolding pure raise
insert_booking b db =
    let row = record b { id = db.booking_seq; created_at = db.now } in
    insert_row (insert_error row db) row (record db { booking_seq = suc db.booking_seq })

-- `.one()`, and the row that an object of the session stands for
abbrev pub one : {A : Type 0} → Option A → Result Error A
one none = err no_result
one (some a) = ok a

unfoldable pub load : ℕ → Exec Db Error Booking
load id db = (one (find (λ b. b.id == id) db.bookings), db)

abbrev pub replace_row : Booking → List Booking → List Booking
replace_row b rows = map (λ c. if c.id == b.id then b else c) rows

-- What UPDATE answers: `moved` says that a column of the foreign key to items has changed.
abbrev pub update_error : Bool → Booking → Db → Option Error
update_error moved b db =
    if violates b db.bookings
    then some exclusion_violation
    else if moved && not (item_exists b db.items)
    then some integrity_error
    else none

abbrev pub update_row : Option Error → Booking → Exec Db Error Booking
update_row none b db = pure b (record db { bookings = replace_row b db.bookings })
update_row (some e) b db = raise e db

-- The flush after attributes of a booking were set.
unfoldable pub update_booking : Bool → Booking → Exec Db Error Booking
unfolding pure raise
update_booking moved b db = update_row (update_error moved b db) b db

-- session.add(BookingEvent(...)), session.add(ItemConditionEvent(...))
unfoldable pub add_event : BookingEvent → Exec Db Error (Unit {0})
unfolding pure
add_event e db = pure tt (record db { booking_events = db.booking_events ++ e ∷ [] })

unfoldable pub add_condition_event : ItemConditionEvent → Exec Db Error (Unit {0})
unfolding pure
add_condition_event e db =
    pure tt (record db { item_condition_events = db.item_condition_events ++ e ∷ [] })
