-- ===== src/Board.antt =====
-- booking/board.py: what a shop sees on a day and in a week.
pub mod Today
pub mod Calendar
use twirl.Prelude.{
  ℕ, suc, ◌+◌, Bool, true, false, not, ◌&&◌, ◌||◌, Option, none, some, List, [], ◌∷◌, map, Text,
  text_eq, any, find, where_, sort_by, ltb, leb, ◌==◌, if◌then◌else◌,
}
use twirl.Exec.{Result, ok, err, and_then}
use twirl.Errors.{Error}
use twirl.Model.{
  Db, Booking, BookingStatus, Item, ItemStatus, Style, DateRange, julian, pending_shop, confirmed,
  at_risk, picked_up, not_returned, same_status, is_active, is_block, blocked_column, overlaps,
}
use twirl.Dates.{add_days}
use twirl.Availability.{day_range}

pub record TodayBoard : Type 0 where
  pub pending : List Booking
  pub at_risk : List Booking
  pub pickups_today : List Booking
  pub returns_today : List Booking
  pub overdue_pickups : List Booking
  pub overdue_returns : List Booking

-- ORDER BY key, id
abbrev pub by_key : (Booking → ℕ) → Booking → Booking → Bool
by_key key a b = ltb (key a) (key b) || (key a == key b && leb a.id b.id)

abbrev pub of_shop : ℕ → (Booking → Bool) → Booking → Bool
of_shop shop_id condition b = b.shop_id == shop_id && not (is_block b.kind) && condition b

-- `_bookings`
unfoldable pub shop_bookings : ℕ → (Booking → Bool) → (Booking → ℕ) → Db → List Booking
shop_bookings shop_id condition key db =
    sort_by (by_key key) (where_ (of_shop shop_id condition) db.bookings)

unfoldable pub today_board : (shop_id today : ℕ) → Db → TodayBoard
today_board shop_id today db = record {
  pending = shop_bookings shop_id (λ b. same_status b.status pending_shop) (λ b. b.created_at) db;
  at_risk = shop_bookings shop_id (λ b. same_status b.status at_risk) (λ b. b.pickup_date) db;
  pickups_today =
      shop_bookings shop_id (λ b. same_status b.status confirmed && b.pickup_date == today)
        (λ b. b.pickup_date) db;
  returns_today =
      shop_bookings shop_id (λ b. same_status b.status picked_up && b.return_date == today)
        (λ b. b.pickup_date) db;
  overdue_pickups =
      shop_bookings shop_id (λ b. same_status b.status confirmed && ltb b.pickup_date today)
        (λ b. b.pickup_date) db;
  overdue_returns =
      shop_bookings shop_id
        (λ b.
          (same_status b.status picked_up || same_status b.status not_returned)
          && ltb b.return_date today)
        (λ b. b.pickup_date) db;
}

pub record CalendarRow : Type 0 where
  pub item : Item
  pub cells : List (Option Booking)

-- The bookings that the week's query reads.
unfoldable pub week_bookings : (shop_id first last : ℕ) → Db → List Booking
week_bookings shop_id first last db =
    where_
      (λ b.
        b.shop_id == shop_id
        && is_active b.status
        && overlaps (blocked_column b) (day_range first last))
      db.bookings

-- by_item[item.id]
abbrev pub by_item : ℕ → List Booking → List Booking
by_item item_id rows = where_ (λ (b : Booking). b.item_id == item_id) rows

-- `blocked_range.lower <= day < blocked_range.upper`
abbrev pub in_range : ℕ → Booking → Bool
in_range day b =
    leb (blocked_column b).lower (julian day) && ltb (julian day) (blocked_column b).upper

-- next((b for b in ... if ...), None)
unfoldable pub cell : List Booking → ℕ → Option Booking
cell rows day = find (in_range day) rows

abbrev pub is_retired : ItemStatus → Bool
is_retired ItemStatus.retired = true
is_retired _ = false

abbrev pub is_there : Option ℕ → Bool
is_there none = true
is_there (some deleted_at) = false

abbrev pub style_kept : Item → List Style → Bool
style_kept i styles = any (λ (s : Style). s.id == i.style_id && is_there s.deleted_at) styles

abbrev pub week_days : ℕ → List ℕ
week_days start =
    start ∷ (start + 1) ∷ (start + 2) ∷ (start + 3) ∷ (start + 4) ∷ (start + 5) ∷ (start + 6) ∷ []

-- `item_order` is the order of the rows by style code, size and item code, under the database's collation.
module _ (item_order : Db → Item → Item → Bool) where
  unfoldable pub calendar_items : ℕ → Db → List Item
  calendar_items shop_id db = sort_by (item_order db) (
      where_
        (λ (i : Item). i.shop_id == shop_id && not (is_retired i.status) && style_kept i db.styles)
        db.items)

  unfoldable pub week_calendar : (shop_id start : ℕ) → Db → Result Error (List ℕ × List CalendarRow)
  week_calendar shop_id start db = and_then (add_days start 6) λ last.
      let rows = week_bookings shop_id start last db in
      ok (
        week_days start,
        map
            (λ (i : Item). record {
              item = i;
              cells = map (cell (by_item i.id rows)) (week_days start);
            })
            (calendar_items shop_id db),
      )
