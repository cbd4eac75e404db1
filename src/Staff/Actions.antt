-- ===== src/Staff/Actions.antt =====
-- booking/staff.py: one status change, blocks, returns, and the state of an item.
use twirl.Prelude.{
  ℕ, Bool, false, ◌&&◌, none, some, List, [], ◌∷◌, ◌++◌, map, Text, codes, strip, is_empty, take,
  where_, sort_by, find, ltb, leb, ◌==◌, if◌then◌else◌,
}
use twirl.Exec.{Exec, Result, ok, err, pure, raise, lift, gets, catch, nested, ◌>>=◌, ◌>>◌}
use twirl.Errors.{
  Error, invalid_dates, return_before_pickup, item_conflict, value_error, is_exclusion_violation,
}
use twirl.Host.{Host}
use twirl.Model.{
  Db, Booking, Actor, Item, ItemStatus, confirmed, picked_up, completed, cancelled_by_shop, no_show,
  declined, block, is_block, is_active, returned_ok, returned_issue, status_change,
  item_status_value,
}
use twirl.Session.{restore, one, load, insert_booking, add_condition_event}
use twirl.Timeline.{record_created, transition}
use twirl.Codes.{new_booking_ref}
use twirl.Availability.{overlapping_bookings, by_pickup}

-- an attribute of an item object, that of its row
unfoldable pub load_item : ℕ → Exec Db Error Item
load_item id db = (one (find (λ (i : Item). i.id == id) db.items), db)

unfoldable pub not_insertable : ℕ → ℕ → ℕ → Error → Exec Db Error Booking
not_insertable item_id start end e =
    if is_exclusion_violation e
    then (gets (overlapping_bookings item_id start end) >>= λ found.
        raise (item_conflict found false))
    else raise e

-- `_insert`
unfoldable pub insert_or_conflict : Booking → ℕ → ℕ → Exec Db Error Booking
insert_or_conflict b start end =
    catch (nested restore (insert_booking b)) (not_insertable b.item_id start end)

unfoldable pub accept : ℕ → Actor → Exec Db Error Booking
accept booking actor = transition booking confirmed actor []

-- `_require_reason`
unfoldable pub require_reason : Text → Result Error Text
require_reason reason =
    if is_empty (strip reason) then err value_error else ok (take 300 (strip reason))

unfoldable pub decline : ℕ → Actor → Text → Exec Db Error Booking
decline booking actor reason = do
  given ← lift (require_reason reason)
  transition booking declined actor given

unfoldable pub cancel_by_shop : ℕ → Actor → Text → Exec Db Error Booking
cancel_by_shop booking actor reason = do
  given ← lift (require_reason reason)
  transition booking cancelled_by_shop actor given

unfoldable pub mark_picked_up : ℕ → Actor → Exec Db Error Booking
mark_picked_up booking actor = transition booking picked_up actor []

unfoldable pub mark_no_show : ℕ → Actor → Exec Db Error Booking
mark_no_show booking actor = transition booking no_show actor []

-- The tail of `mark_returned`, with the note that it works with.
unfoldable pub complete : ℕ → Actor → Bool → Text → Exec Db Error Booking
complete booking actor fine note = do
  b ← transition booking completed actor (strip note)
  add_condition_event (record {
    item_id = b.item_id;
    booking_id = some b.id;
    kind = if fine then returned_ok else returned_issue;
    note = strip note;
    created_by = actor.id;
  })
  pure b

unfoldable pub mark_returned : ℕ → Actor → Bool → Text → Exec Db Error Booking
mark_returned booking actor fine note = do
  given ← (if fine then pure note else lift (require_reason note))
  complete booking actor fine given

unfoldable pub cancel_block : ℕ → Actor → Exec Db Error Booking
cancel_block booking actor = do
  b ← load booking
  if is_block b.kind
      then transition booking cancelled_by_shop actor (codes "block removed")
      else raise value_error

abbrev pub new_block : Text → Item → ℕ → ℕ → Text → Actor → Booking
new_block ref item starts_on ends_on reason actor = record {
  id = 0;
  ref = ref;
  shop_id = item.shop_id;
  item_id = item.id;
  style_id = item.style_id;
  customer_id = none;
  kind = block;
  status = confirmed;
  event_date = none;
  pickup_date = starts_on;
  return_date = ends_on;
  prep_days = 0;
  cleaning_days = 0;
  expires_at = none;
  source_channel = some (codes "staff");
  fee_cents = 0;
  price_cents = 0;
  customer_note = [];
  staff_note = [];
  reason = take 300 (strip reason);
  created_by = actor.id;
  created_at = 0;
}

unfoldable pub insert_block : Host → Item → ℕ → ℕ → Text → Actor → Exec Db Error Booking
insert_block host item starts_on ends_on reason actor = do
  ref ← new_booking_ref host
  row ← insert_or_conflict (new_block ref item starts_on ends_on reason actor) starts_on ends_on
  record_created row actor
  pure row

-- `if conflicts: raise ItemConflict(conflicts, overridable=False)`
unfoldable pub unless_taken : List Booking → Exec Db Error Booking → Exec Db Error Booking
unless_taken [] m = m
unless_taken (c ∷ cs) m = raise (item_conflict (c ∷ cs) false)

unfoldable pub create_block : Host → ℕ → ℕ → ℕ → Text → Actor → Exec Db Error Booking
create_block host item_id starts_on ends_on reason actor = do
  item ← load_item item_id
  conflicts ← gets (overlapping_bookings item.id starts_on ends_on)
  if ltb ends_on starts_on
      then raise (invalid_dates return_before_pickup)
      else unless_taken conflicts (insert_block host item starts_on ends_on reason actor)

abbrev pub set_status : ℕ → ItemStatus → List Item → List Item
set_status id status items =
    map (λ (i : Item). if i.id == id then record i { status = status } else i) items

unfoldable pub write_item_status : ℕ → ItemStatus → Exec Db Error (Unit {0})
unfolding pure
write_item_status id status db = pure tt (record db { items = set_status id status db.items })

-- `note.strip() or f"{old_status} -> {new_status}"`
abbrev pub status_note : Text → ItemStatus → ItemStatus → Text
status_note note old new =
    if is_empty (strip note)
    then item_status_value old ++ codes " -> " ++ item_status_value new
    else strip note

-- The bookings that a changed item still has to serve.
abbrev pub upcoming : ℕ → ℕ → Db → List Booking
upcoming item_id today db = sort_by by_pickup (
    where_ (λ b. b.item_id == item_id && is_active b.status && leb today b.return_date) db.bookings)

-- The status is a member of `ItemStatus` here; `ItemStatus(status)` raises ValueError on any other text.
unfoldable pub set_item_status : ℕ → ItemStatus → Actor → ℕ → Text → Exec Db Error (List Booking)
set_item_status item_id status actor today note = do
  item ← load_item item_id
  write_item_status item_id status
  add_condition_event (record {
    item_id = item.id;
    booking_id = none;
    kind = status_change;
    note = status_note note item.status status;
    created_by = actor.id;
  })
  gets (upcoming item_id today)
