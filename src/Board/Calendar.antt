-- ===== src/Board/Calendar.antt =====
-- booking/board.py: the cells of `week_calendar`
use twirl.Prelude.{
  ℕ, ◌+◌, ◌≤◌, ◌≡◌, ◌↔◌, subst, Bool, true, ◌&&◌, Option, some, arith, find-In, find-total, ◌==◌,
  In, In-where, where-In, where_,
}
use twirl.Model.{Db, Booking, is_active, blocked_column, overlaps}
use twirl.Session.Rows.{Distinct, same_row}
use twirl.Availability.{day_range}
use twirl.Exclusion.Writes.{IsExclusive}
use twirl.Exclusion.Holders.{holds, holders, one_holder}
use twirl.Board.{week_bookings, by_item, in_range, cell}

module _ (shop_id first item_id day : ℕ) (db : Db) where
  abbrev of_week : Booking → Bool
  of_week b =
      b.shop_id == shop_id
      && is_active b.status
      && overlaps (blocked_column b) (day_range first (first + 6))

  abbrev of_item : Booking → Bool
  of_item b = b.item_id == item_id

  abbrev shown : Option Booking
  shown = cell (by_item item_id (week_bookings shop_id first (first + 6) db)) day

  -- What a cell shows holds the item on that day.
  cell-holds :
      (c : Booking)
      → shown ≡ some c
      → In c db.bookings × (c.shop_id ≡ shop_id) × (holds item_id day c ≡ true)
  unfolding cell week_bookings
  cell-holds c h =
      let (i, covers) = find-In (in_range day) c (by_item item_id (where_ of_week db.bookings)) h in
      let (j, own) = In-where of_item c (where_ of_week db.bookings) i in
      let (k, week) = In-where of_week c db.bookings j in (k, ground arith, ground arith)

  in_week :
      (c : Booking)
      → first ≤ day
      → day ≤ first + 6
      → c.shop_id ≡ shop_id
      → holds item_id day c ≡ true
      → (of_week c ≡ true) × (of_item c ≡ true) × (in_range day c ≡ true)
  in_week c from to own h = (ground arith, ground arith, ground arith)

  -- On a day of the week, with distinct keys and no two active bookings of an item that overlap, the cell
  -- of an item shows a booking exactly when that is a stored booking of the shop which holds the item on
  -- that day.
  pub cell_iff :
      (c : Booking)
      → first ≤ day
      → day ≤ first + 6
      → Distinct db.bookings
      → IsExclusive db
      → (cell (by_item item_id (week_bookings shop_id first (first + 6) db)) day ≡ some c)
        ↔ (In c db.bookings × (c.shop_id ≡ shop_id) × (holds item_id day c ≡ true))
  unfolding cell week_bookings holders
  cell_iff c from to keys apart = (cell-holds c, λ (i, own, h). shows i own h)
    where
      shows : In c db.bookings → c.shop_id ≡ shop_id → holds item_id day c ≡ true → shown ≡ some c
      shows i own h =
          let (week, item, covers) = in_week c from to own h in
          let rows = where_ of_item (where_ of_week db.bookings) in
          let among =
            where-In of_item c (where_ of_week db.bookings) (where-In of_week c db.bookings i week)
              item in
          let (b, e) = find-total (in_range day) c rows among covers in
          let (j, same_shop, hb) = cell-holds b e in
          let same =
            one_holder item_id day db b c apart (where-In (holds item_id day) b db.bookings j hb)
              (where-In (holds item_id day) c db.bookings i h) in
          subst (λ (x : Booking). shown ≡ some x) (same_row b c db.bookings keys j i same) e
