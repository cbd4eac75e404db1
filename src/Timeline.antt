-- ===== src/Timeline.antt =====
-- booking/states.py and booking/timeline.py
pub mod Outcome
use twirl.Prelude.{
  ℕ, Bool, Option, none, some, List, [], ◌∷◌, Text, is_empty, any, if◌then◌else◌, true, false,
}
use twirl.Exec.{Exec, pure, raise, gets, catch, nested, ◌>>=◌, ◌>>◌}
use twirl.Errors.{Error, invalid_transition, item_conflict, is_exclusion_violation}
use twirl.Model.{
  Db, Booking, BookingStatus, Actor, hold, pending_shop, confirmed, at_risk, picked_up, completed,
  cancelled_by_renter, cancelled_by_shop, expired, no_show, not_returned, declined, same_status,
}
use twirl.Session.{restore, load, update_booking, add_event}

-- TRANSITIONS, with the empty set for a status that is not a key
abbrev pub transitions : BookingStatus → List BookingStatus
transitions hold = pending_shop ∷ confirmed ∷ expired ∷ []
transitions pending_shop = confirmed ∷ declined ∷ cancelled_by_shop ∷ cancelled_by_renter ∷ []
transitions confirmed = at_risk ∷ picked_up ∷ no_show ∷ cancelled_by_renter ∷ cancelled_by_shop ∷ []
transitions at_risk = confirmed ∷ cancelled_by_shop ∷ []
transitions picked_up = completed ∷ not_returned ∷ []
transitions not_returned = completed ∷ []
transitions _ = []

unfoldable pub can_transition : BookingStatus → BookingStatus → Bool
unfolding same_status
can_transition src dst = any (same_status dst) (transitions src)

unfoldable pub record_created : Booking → Actor → Exec Db Error (Unit {0})
record_created booking actor = add_event (record {
  booking_id = booking.id;
  from_status = none;
  to_status = booking.status;
  actor_id = actor.id;
  actor_kind = actor.kind;
  reason = [];
})

-- `except IntegrityError`, as both `transition` and `swap_item` have it
unfoldable pub as_conflict : Error → Exec Db Error Booking
as_conflict e = if is_exclusion_violation e then raise (item_conflict [] false) else raise e

-- The attributes that `transition` sets.
abbrev pub moved_to : Booking → BookingStatus → Text → Booking
moved_to b to reason = record b {
  status = to;
  reason = if is_empty reason then b.reason else reason;
}

-- One flush writes the row and the event.
unfoldable pub write_transition : Booking → BookingStatus → Actor → Text → Exec Db Error Booking
write_transition b to actor reason = do
  row ← update_booking false (moved_to b to reason)
  add_event (record {
    booking_id = b.id;
    from_status = some b.status;
    to_status = to;
    actor_id = actor.id;
    actor_kind = actor.kind;
    reason = reason;
  })
  pure row

-- A booking object is passed as its id: attributes are those of its row.
unfoldable pub transition : ℕ → BookingStatus → Actor → Text → Exec Db Error Booking
transition booking to actor reason = do
  b ← load booking
  if can_transition b.status to
      then catch (nested restore (write_transition b to actor reason)) as_conflict
      else raise (invalid_transition b.status (some to))
