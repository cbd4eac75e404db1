-- ===== src/Staff/Returned.antt =====
-- booking/staff.py: `mark_returned`
use twirl.Prelude.{
  ℕ, ◌≡◌, refl, inl, inr, Bool, true, false, not, ◌&&◌, some, [], ◌∷◌, ◌++◌, Text, strip, is_empty,
  take, find, ◌==◌, if◌then◌else◌, Bool-cases,
}
use twirl.Exec.{ok, err, pure, lift, ◌>>=◌}
use twirl.Errors.{invalid_transition, value_error}
use twirl.Model.{Db, Booking, Actor, ItemConditionEvent, completed, returned_ok, returned_issue}
use twirl.Session.{add_condition_event}
use twirl.Timeline.{can_transition, moved_to}
use twirl.Timeline.Outcome.{written, transition_outcome, violates-inactive}
use twirl.Staff.Actions.{require_reason, complete, mark_returned}

-- The note that is kept: a return with an issue keeps three hundred characters of it.
abbrev pub kept_note : Bool → Text → Text
kept_note fine note = strip (if fine then note else take 300 (strip note))

abbrev pub return_event : Booking → Actor → Bool → Text → ItemConditionEvent
return_event b actor fine note = record {
  item_id = b.item_id;
  booking_id = some b.id;
  kind = if fine then returned_ok else returned_issue;
  note = note;
  created_by = actor.id;
}

abbrev pub returned : Db → Booking → Actor → Bool → Text → Db
returned db b actor fine note =
    let d = written db b completed actor note in
    record d {
      item_condition_events = d.item_condition_events ++ return_event b actor fine note ∷ [];
    }

complete_outcome :
    (db : Db) (id : ℕ) (b : Booking) (actor : Actor) (fine : Bool) (note : Text)
    → find (λ (c : Booking). c.id == id) db.bookings ≡ some b
    → complete id actor fine note db ≡ (
        if can_transition b.status completed
        then (ok (moved_to b completed (strip note)), returned db b actor fine (strip note))
        else (err (invalid_transition b.status (some completed)), db))
unfolding complete add_condition_event pure ◌>>=◌
complete_outcome db id b actor fine note found =
    let out = transition_outcome db id b completed actor (strip note) found in
    let clear = violates-inactive (moved_to b completed (strip note)) db.bookings refl in
    elim (Bool-cases (can_transition b.status completed)) [
      | inl e ↦ rw (rw clear at (rw e at out)) (rw e refl)
      | inr e ↦ rw (rw e at out) (rw e refl)
    ]

-- On a stored booking `mark_returned` refuses a return with an issue that has no note, and a status from
-- which TRANSITIONS does not lead to completed, and changes nothing then; otherwise the booking is
-- completed with one event, and one event on the condition of its item says how it came back.
pub mark_returned_outcome :
    (db : Db) (id : ℕ) (b : Booking) (actor : Actor) (fine : Bool) (note : Text)
    → find (λ (c : Booking). c.id == id) db.bookings ≡ some b
    → mark_returned id actor fine note db ≡ (
        if not fine && is_empty (strip note)
        then (err value_error, db)
        else if can_transition b.status completed
        then (
          ok (moved_to b completed (kept_note fine note)),
          returned db b actor fine (kept_note fine note),
        )
        else (err (invalid_transition b.status (some completed)), db))
unfolding mark_returned require_reason lift pure ◌>>=◌
mark_returned_outcome db id b actor true note found = complete_outcome db id b actor true note found
mark_returned_outcome db id b actor false note found = elim (Bool-cases (is_empty (strip note))) [
  | inl e ↦ rw e refl
  | inr e ↦ rw e (complete_outcome db id b actor false (take 300 (strip note)) found)
]
