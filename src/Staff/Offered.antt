-- ===== src/Staff/Offered.antt =====
-- booking/staff.py: `swap_item` with an item that `swap_candidates` offered.
use twirl.Prelude.{
  List, find-In, In-map, subst, if◌then◌else◌, ℕ, ◌-◌, ◌≡◌, refl, true, false, not, ◌&&◌, some,
  Text, arith, find, any-true, In, In-where, In-sort_by, where_, ◌==◌, ==-refl,
}
use twirl.Exec.{ok, pure, catch, nested, ◌>>=◌}
use twirl.Model.{
  BookingStatus, pending_shop, confirmed, at_risk, Db, Booking, Actor, Item, is_in_use,
  blocked_column,
}
use twirl.Session.{replace_row, violates, item_exists, load, update_booking, add_event}
use twirl.Availability.{day_range, from_julian, free_items, id_matches}
use twirl.Availability.Free.{free_items-IsFree, free-insertable}
use twirl.Staff.Actions.{load_item}
use twirl.Staff.Swap.{
  after_swap, is_swappable, candidate_order, swap_query, candidates, swapped, write_swap, swap_item,
}

-- The window that `swap_candidates` asks for is the range of the booking.
window_of :
    (b : Booking) (start end : ℕ)
    → from_julian (blocked_column b).lower ≡ ok start
    → from_julian ((blocked_column b).upper - 1) ≡ ok end
    → blocked_column b ≡ day_range start end
unfolding from_julian
window_of b start end hs he = ground arith

module _ (b : Booking) (size : Text) (start end : ℕ) (db : Db) (i : Item) where
  candidate_free :
      In i (candidates b size start end db) → In i (free_items (swap_query b start end) db)
  unfolding candidates
  candidate_free h =
      let free = free_items (swap_query b start end) db in
      let other = λ (j : Item). not (j.id == b.item_id) in
      (In-where other i free (In-sort_by (candidate_order b size) i (where_ other free) h)).0

  same_shop : id_matches (some b.shop_id) i.shop_id ≡ true → i.shop_id ≡ b.shop_id
  same_shop h = ground arith

  item_stored : In i db.items → i.shop_id ≡ b.shop_id → item_exists (swapped b i) db.items ≡ true
  item_stored stored shop =
      any-true (λ (j : Item). j.id == i.id && j.style_id == i.style_id && j.shop_id == b.shop_id) i
        db.items stored (rw (==-refl i.id) (rw (==-refl i.style_id) (rw shop (==-refl b.shop_id))))

swap_step :
    (booking item : ℕ) (actor : Actor) (db : Db) (b : Booking) (i old : Item)
    → find (λ (c : Booking). c.id == booking) db.bookings ≡ some b
    → find (λ (j : Item). j.id == item) db.items ≡ some i
    → find (λ (j : Item). j.id == b.item_id) db.items ≡ some old
    → i.shop_id ≡ b.shop_id
    → is_in_use i.status ≡ true
    → is_swappable b.status ≡ true
    → violates (swapped b i) db.bookings ≡ false
    → item_exists (swapped b i) db.items ≡ true
    → let end = swap_item booking item actor db in
      (end.0 ≡ ok (swapped b i)) × (end.1.bookings ≡ replace_row (swapped b i) db.bookings)
unfolding swap_item write_swap load load_item update_booking add_event pure catch nested ◌>>=◌
swap_step booking item actor db b i old fb fi fo shop use_ may clear stored = rw fb (
    rw fi (
      rw fo
        (rw shop (rw (==-refl b.shop_id) (rw use_ (rw may (rw clear (rw stored (refl, refl)))))))))

-- Confirmed if the booking was at risk, and as it was otherwise.
abbrev pub Settles : BookingStatus → BookingStatus → Type 0
Settles at_risk after = after ≡ confirmed
Settles before after = after ≡ before

after_swap-Settles : (s : BookingStatus) → is_swappable s ≡ true → Settles s (after_swap s)
after_swap-Settles pending_shop h = refl
after_swap-Settles confirmed h = refl
after_swap-Settles at_risk h = refl
after_swap-Settles _ h = cc

-- The row of a booking that was swapped.
pub record IsSwapped (b : Booking) (i : Item) (row : Booking) : Type 0 where
  pub item : row.item_id ≡ i.id
  pub style : row.style_id ≡ i.style_id
  pub status : Settles b.status row.status
  pub others :
      row ≡ record b { item_id = row.item_id; style_id = row.style_id; status = row.status }

replaced-In :
    (id : ℕ) (b m : Booking) (rows : List Booking)
    → find (λ (c : Booking). c.id == id) rows ≡ some b
    → m.id ≡ b.id
    → In m (replace_row m rows)
replaced-In id b m rows h same =
    let (i, t) = find-In (λ (c : Booking). c.id == id) b rows h in
    let e : (b.id == m.id) ≡ true = rw same (==-refl b.id) in
    subst (λ (x : Booking). In x (replace_row m rows)) (rw e refl)
      (In-map (λ (c : Booking). if c.id == m.id then m else c) b rows i)

-- A booking that may be swapped, with any item that `swap_candidates` selects for it: the swap succeeds, and
-- the stored booking stands on that item, confirmed if it was at risk, and is otherwise as it was.
pub swap_item-candidates :
    (booking item : ℕ) (actor : Actor) (db : Db) (b : Booking) (i old : Item) (size : Text)
    (start end : ℕ)
    → find (λ (c : Booking). c.id == booking) db.bookings ≡ some b
    → find (λ (j : Item). j.id == item) db.items ≡ some i
    → find (λ (j : Item). j.id == b.item_id) db.items ≡ some old
    → from_julian (blocked_column b).lower ≡ ok start
    → from_julian ((blocked_column b).upper - 1) ≡ ok end
    → is_swappable b.status ≡ true
    → In i (candidates b size start end db)
    → let end = swap_item booking item actor db in
      (row : Booking) × (end.0 ≡ ok row) × IsSwapped b i row × In row end.1.bookings
swap_item-candidates booking item actor db b i old size start end fb fi fo hs he may offered =
    let among = candidate_free b size start end db i offered in
    let free = free_items-IsFree (swap_query b start end) db i among in
    let shop = same_shop b size start end db i free.shop in
    let clear =
      free-insertable (swap_query b start end) db i (swapped b i) among refl
        (window_of b start end hs he) in
    let (said, rows) =
      swap_step booking item actor db b i old fb fi fo shop free.in_use may clear
        (item_stored b size start end db i free.stored shop) in
    let moved : IsSwapped b i (swapped b i) = record {
      item = refl;
      style = refl;
      status = after_swap-Settles b.status may;
      others = refl;
    } in
    (swapped b i, said, moved, rw rows (replaced-In booking b (swapped b i) db.bookings fb refl))
