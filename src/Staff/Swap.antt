-- ===== src/Staff/Swap.antt =====
-- booking/staff.py: `swap_candidates` and `swap_item`
use twirl.Prelude.{
  ℕ, ◌-◌, Bool, true, false, not, ◌&&◌, ◌||◌, none, some, List, ◌++◌, Text, codes, take, text_eq,
  where_, sort_by, ltb, leb, ◌==◌, if◌then◌else◌,
}
use twirl.Exec.{Exec, pure, raise, lift, gets, catch, nested, ◌>>=◌, ◌>>◌}
use twirl.Errors.{Error, invalid_transition, value_error}
use twirl.Model.{
  Db, Booking, BookingStatus, Actor, Item, pending_shop, confirmed, at_risk, is_in_use,
  blocked_column,
}
use twirl.Session.{restore, load, update_booking, add_event}
use twirl.Timeline.{as_conflict}
use twirl.Availability.{FreeQuery, free_items, from_julian}
use twirl.Staff.Actions.{load_item}

-- `status in SWAPPABLE`
abbrev pub is_swappable : BookingStatus → Bool
is_swappable pending_shop = true
is_swappable confirmed = true
is_swappable at_risk = true
is_swappable _ = false

-- `case((test, 0), else_=1)`: rows that pass the test come first.
abbrev pub rank : Bool → ℕ
rank true = 0
rank false = 1

-- ORDER BY same style first, then same size, then id
abbrev pub candidate_order : Booking → Text → Item → Item → Bool
candidate_order b size i j =
    let si = rank (i.style_id == b.style_id) in
    let sj = rank (j.style_id == b.style_id) in
    let zi = rank (text_eq i.size size) in
    let zj = rank (text_eq j.size size) in
    ltb si sj || (si == sj && (ltb zi zj || (zi == zj && leb i.id j.id)))

abbrev pub swap_query : Booking → ℕ → ℕ → FreeQuery
swap_query b start end = record {
  start = start;
  end = end;
  style_id = none;
  shop_id = some b.shop_id;
  size = none;
}

-- The items that are free for the booking, its own left out, best match first.
unfoldable pub candidates : Booking → Text → ℕ → ℕ → Db → List Item
candidates b size start end db =
    sort_by (candidate_order b size)
      (where_ (λ i. not (i.id == b.item_id)) (free_items (swap_query b start end) db))

unfoldable pub swap_candidates : ℕ → ℕ → Exec Db Error (List Item)
swap_candidates booking limit = do
  b ← load booking
  own ← load_item b.item_id
  start ← lift (from_julian (blocked_column b).lower)
  end ← lift (from_julian ((blocked_column b).upper - 1))
  gets (λ db. take limit (candidates b own.size start end db))

abbrev pub after_swap : BookingStatus → BookingStatus
after_swap at_risk = confirmed
after_swap status = status

abbrev pub swapped : Booking → Item → Booking
swapped b new_item = record b {
  item_id = new_item.id;
  style_id = new_item.style_id;
  status = after_swap b.status;
}

unfoldable pub write_swap : Booking → Item → Item → Actor → Exec Db Error Booking
write_swap b old new_item actor = do
  row ← catch (nested restore (update_booking true (swapped b new_item))) as_conflict
  add_event (record {
    booking_id = b.id;
    from_status = some b.status;
    to_status = after_swap b.status;
    actor_id = actor.id;
    actor_kind = actor.kind;
    reason = codes "swap " ++ old.code ++ codes " -> " ++ new_item.code;
  })
  pure row

unfoldable pub swap_item : (booking item : ℕ) → Actor → Exec Db Error Booking
swap_item booking item actor = do
  b ← load booking
  new_item ← load_item item
  old ← load_item b.item_id
  if not (new_item.shop_id == b.shop_id) || not (is_in_use new_item.status)
      then raise value_error
      else if is_swappable b.status
      then write_swap b old new_item actor
      else raise (invalid_transition b.status none)
