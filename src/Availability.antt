-- ===== src/Availability.antt =====
-- booking/availability.py: which bookings and which items meet a window of days.
pub mod Free
pub mod Sized
use twirl.Prelude.{
  ltb, if◌then◌else◌, ◌-◌, ℕ, ◌+◌, Bool, true, false, not, ◌&&◌, Option, none, some, List, Text,
  text_eq, any, where_, sort_by, leb, ◌==◌,
}
use twirl.Exec.{Result, ok, err}
use twirl.Errors.{Error, overflow_error}
use twirl.Dates.{date_max}
use twirl.Model.{
  Db, Booking, Item, DateRange, julian, is_active, is_in_use, blocked_column, overlaps,
}

-- `_range`: Range(start, end, bounds="[]")
abbrev pub day_range : ℕ → ℕ → DateRange
day_range start end = record { lower = julian start; upper = julian end + 1 }

-- An active booking of the item whose blocked range overlaps the window.
unfoldable pub is_in_way : ℕ → ℕ → ℕ → Booking → Bool
is_in_way item_id start end b =
    b.item_id == item_id && is_active b.status && overlaps (blocked_column b) (day_range start end)

-- ORDER BY pickup_date; Postgres leaves the order of equal dates open, and here it is that of the rows.
abbrev pub by_pickup : Booking → Booking → Bool
by_pickup a b = leb a.pickup_date b.pickup_date

unfoldable pub overlapping_bookings : (item_id start end : ℕ) → Db → List Booking
overlapping_bookings item_id start end db =
    sort_by by_pickup (where_ (is_in_way item_id start end) db.bookings)

-- a filter that is left out lets every row through
abbrev pub id_matches : Option ℕ → ℕ → Bool
id_matches none n = true
id_matches (some m) n = n == m

abbrev pub text_matches : Option Text → Text → Bool
text_matches none t = true
text_matches (some s) t = text_eq t s

pub record FreeQuery : Type 0 where
  pub start : ℕ
  pub end : ℕ
  pub style_id : Option ℕ
  pub shop_id : Option ℕ
  pub size : Option Text

-- The WHERE clause of `free_items_stmt`.
unfoldable pub is_free : FreeQuery → List Booking → Item → Bool
is_free q bookings i =
    is_in_use i.status
    && not (any (is_in_way i.id q.start q.end) bookings)
    && id_matches q.style_id i.style_id
    && id_matches q.shop_id i.shop_id
    && text_matches q.size i.size

unfoldable pub free_items : FreeQuery → Db → List Item
free_items q db = where_ (is_free q db.bookings) db.items

-- A bound of a range as Python reads it: a `date` ends at year 9999, and starts at year 1.
unfoldable pub from_julian : ℕ → Result Error ℕ
from_julian day =
    if ltb 1721425 day && leb day (julian date_max) then ok (day - 1721425) else err overflow_error
