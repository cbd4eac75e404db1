-- ===== src/Timeline/Outcome.antt =====
-- booking/timeline.py: the branches of `transition`
use twirl.Prelude.{
  true, ◌≢◌, ◌⊎◌, inl, inr, refl, Bool-cases, In, any-witness, any-false, &&-right, ==-ne, ℕ, ◌≡◌,
  false, not, ◌&&◌, some, List, [], ◌∷◌, ◌++◌, Text, arith, find, ◌==◌, if◌then◌else◌, any-eq-false,
}
use twirl.Exec.{Result, ok, err, ◌>>=◌, catch, nested}
use twirl.Errors.{Error, invalid_transition, item_conflict, is_exclusion_violation}
use twirl.Model.{
  Db, Booking, BookingStatus, BookingEvent, Actor, is_active, excludes, same_status,
  eq_of_same_status, same_status_refl,
}
use twirl.Session.{violates, replace_row, load, update_booking, add_event}
use twirl.Timeline.{
  transitions, can_transition, as_conflict, moved_to, write_transition, transition,
}

-- A row that is not active is in nobody's way.
pub excludes-inactive : (b c : Booking) → is_active b.status ≡ false → excludes b c ≡ false
unfolding excludes
excludes-inactive b c h = rw h

pub violates-inactive :
    (b : Booking) (rows : List Booking) → is_active b.status ≡ false → violates b rows ≡ false
violates-inactive b rows h =
    any-eq-false (λ (c : Booking). not (c.id == b.id) && excludes b c) rows
      λ c _. rw (excludes-inactive b c h) (ground arith)

abbrev pub transition_event : Booking → BookingStatus → Actor → Text → BookingEvent
transition_event b to actor reason = record {
  booking_id = b.id;
  from_status = some b.status;
  to_status = to;
  actor_id = actor.id;
  actor_kind = actor.kind;
  reason = reason;
}

abbrev pub written : Db → Booking → BookingStatus → Actor → Text → Db
written db b to actor reason = record db {
  bookings = replace_row (moved_to b to reason) db.bookings;
  booking_events = db.booking_events ++ transition_event b to actor reason ∷ [];
}

-- The branches of `transition` on a stored booking.
pub transition_outcome :
    (db : Db) (id : ℕ) (b : Booking) (to : BookingStatus) (actor : Actor) (reason : Text)
    → find (λ (c : Booking). c.id == id) db.bookings ≡ some b
    → transition id to actor reason db ≡ (
        if can_transition b.status to
        then if violates (moved_to b to reason) db.bookings
          then (err (item_conflict [] false), db)
          else (ok (moved_to b to reason), written db b to actor reason)
        else (err (invalid_transition b.status (some to)), db))
unfolding transition write_transition as_conflict load update_booking add_event ◌>>=◌ catch nested
    is_exclusion_violation
transition_outcome db id b to actor reason found = ground arith

-- The row with its new status, the reason that is given or else the one it had, and nothing else changed.
pub record IsMoved (b : Booking) (to : BookingStatus) (reason : Text) (row : Booking) : Type 0 where
  pub status : row.status ≡ to
  pub given : reason ≢ [] → row.reason ≡ reason
  pub kept : reason ≡ [] → row.reason ≡ b.reason
  pub others : row ≡ record b { status = row.status; reason = row.reason }

moved_to-IsMoved :
    (b : Booking) (to : BookingStatus) (reason : Text) → IsMoved b to reason (moved_to b to reason)
moved_to-IsMoved b to [] = record {
  status = refl;
  given = λ h. absurd (h refl);
  kept = λ h. refl;
  others = refl;
}
moved_to-IsMoved b to (c ∷ reason) = record {
  status = refl;
  given = λ h. refl;
  kept = λ h. cc;
  others = refl;
}

-- A booking of the item that is in the way of the row: another one, both active, with a day in common.
abbrev pub InTheWay : Booking → List Booking → Type 0
InTheWay row rows = (c : Booking) × In c rows × (c.id ≢ row.id) × (excludes row c ≡ true)

-- What `transition` does with a booking that is stored.
abbrev pub Transitioned :
    Booking → BookingStatus → Actor → Text → Db → Result Error Booking × Db → Type 0
Transitioned b to actor reason db end =
    (¬ In to (transitions b.status) × (end ≡ (err (invalid_transition b.status (some to)), db)))
    ⊎ ((row : Booking) × IsMoved b to reason row
        × In to (transitions b.status)
        × ((InTheWay row db.bookings × (end ≡ (err (item_conflict [] false), db)))
            ⊎ (¬ InTheWay row db.bookings
                × (end ≡ (
                  ok row,
                  record db {
                    bookings = replace_row row db.bookings;
                    booking_events = db.booking_events ++ transition_event b to actor reason ∷ [];
                  },
                )))))

violates-InTheWay :
    (row : Booking) (rows : List Booking) → violates row rows ≡ true → InTheWay row rows
violates-InTheWay row rows h =
    let (c, i, t) = any-witness (λ (c : Booking). not (c.id == row.id) && excludes row c) rows h in
    (c, i, (λ e. absurd (ground (arith, e, t))), &&-right _ _ t)

not_InTheWay :
    (row : Booking) (rows : List Booking) → violates row rows ≡ false → ¬ InTheWay row rows
not_InTheWay row rows h (c, i, ne, t) =
    let f = any-false (λ (c : Booking). not (c.id == row.id) && excludes row c) c rows h i in
    ground (arith, f, t, ==-ne c.id row.id ne)

can-In : (src dst : BookingStatus) → can_transition src dst ≡ true → In dst (transitions src)
unfolding can_transition
can-In src dst h =
    let (s, i, t) = any-witness (same_status dst) (transitions src) h in
    rw (eq_of_same_status dst s t) i

cannot-In : (src dst : BookingStatus) → can_transition src dst ≡ false → ¬ In dst (transitions src)
unfolding can_transition
cannot-In src dst h i =
    let f = any-false (same_status dst) dst (transitions src) h i in
    ground (arith, f, same_status_refl dst)

-- On a stored booking `transition` refuses a status that TRANSITIONS does not list for the present one. For
-- a listed one it reports a conflict where the row would have a day in common with another active booking
-- of its item; otherwise it stores the row with the new status, keeping its reason where none is given,
-- and appends one event from the old status to the new. The refusals change nothing.
pub transition-Transitioned :
    (db : Db) (id : ℕ) (b : Booking) (to : BookingStatus) (actor : Actor) (reason : Text)
    → find (λ (c : Booking). c.id == id) db.bookings ≡ some b
    → Transitioned b to actor reason db (transition id to actor reason db)
transition-Transitioned db id b to actor reason found =
    let row = moved_to b to reason in
    rw (transition_outcome db id b to actor reason found)
      (elim (Bool-cases (can_transition b.status to)) [
        | inr e ↦ inl (cannot-In b.status to e, rw e refl)
        | inl e ↦ inr (
          row,
          moved_to-IsMoved b to reason,
          can-In b.status to e,
          elim (Bool-cases (violates row db.bookings)) [
            | inl v ↦ inl (violates-InTheWay row db.bookings v, rw (e, v) refl)
            | inr v ↦ inr (not_InTheWay row db.bookings v, rw (e, v) refl)
          ],
        )
      ])
