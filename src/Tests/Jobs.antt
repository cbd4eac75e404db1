-- ===== src/Tests/Jobs.antt =====
-- The scheduler's jobs and an override at the desk, on the sample data.
use twirl.Prelude.{
  strip, lstrip, is_space, ℕ, ◌≤◌, ◌≡◌, refl, arith, inl, inr, false, none, [], ◌∷◌, codes, In,
  sort_by,
}
use twirl.Exec.{ok}
use twirl.Model.{
  Db, Booking, BookingStatus, Notification, NotificationStatus, Channel, Template, confirmed,
  blocked_column, same_status,
}
use twirl.Session.{violates}
use twirl.Availability.{is_in_way, overlapping_bookings, day_range}
use twirl.Staff.{clear_way}
use twirl.Staff.Cleared.{clear_way-insertable}
use twirl.Jobs.{
  Outcome, is_missed, mark_no_shows, is_overdue, is_stale, mark_not_returned, expire_stale_requests,
}
use twirl.Jobs.Ended.{
  IsSwept, mark_no_shows-IsSwept, mark_not_returned-IsSwept, expire_stale_requests-IsSwept,
}
use twirl.Jobs.Delivery.{Run, tries, tries_limit}
use twirl.Availability.{from_julian, free_items, is_free}
use twirl.Timeline.{can_transition, moved_to}
use twirl.Staff.{candidates, swap_item, mark_returned}
use twirl.Staff.Returned.{returned, mark_returned_outcome}
use twirl.Staff.Offered.{IsSwapped, swap_item-candidates}
use twirl.Tests.Data.{sample_item, sample_host, sample_booking, sample_db, sample_keys, desk}

mark_no_shows-IsSwept_example :
    ((mark_no_shows 739895 sample_db).0 ≡ ok 1)
    × IsSwept
        (is_missed 739895)
        BookingStatus.no_show
        (codes "pickup date passed")
        sample_db.bookings
        (mark_no_shows 739895 sample_db).1.bookings
unfolding is_missed same_status
mark_no_shows-IsSwept_example = mark_no_shows-IsSwept 739895 sample_db sample_keys

abbrev out_db : Db
out_db = record sample_db {
  bookings = sample_booking 10 1 739889 739891 BookingStatus.picked_up ∷ [];
}

mark_not_returned-IsSwept_example :
    ((mark_not_returned 739895 out_db).0 ≡ ok 1)
    × IsSwept
        (is_overdue 739895)
        BookingStatus.not_returned
        (codes "return overdue")
        out_db.bookings
        (mark_not_returned 739895 out_db).1.bookings
unfolding is_overdue same_status
mark_not_returned-IsSwept_example = mark_not_returned-IsSwept 739895 out_db (λ c i. elim i [ ], tt)

expire_stale_requests-IsSwept_example :
    ((expire_stale_requests sample_host 90000000001 24 sample_db).0 ≡ ok 1)
    × IsSwept
        (is_stale 90000000001 24)
        BookingStatus.cancelled_by_shop
        (codes "no reply within SLA")
        sample_db.bookings
        (expire_stale_requests sample_host 90000000001 24 sample_db).1.bookings
unfolding is_stale same_status
expire_stale_requests-IsSwept_example =
    expire_stale_requests-IsSwept sample_host 90000000001 24 sample_db sample_keys

abbrev waiting : ℕ → ℕ → Notification
waiting id attempts = record {
  id = id;
  channel = Channel.email;
  recipient = codes "besa@salon";
  template = Template.new_request_shop;
  payload = [];
  status = NotificationStatus.queued;
  attempts = attempts;
  last_error = [];
  provider_id = none;
  sent_at = none;
}

abbrev full_db : Db
full_db = record sample_db { notifications = waiting 1 4 ∷ waiting 2 0 ∷ [] }

abbrev down : Notification → Outcome
down n = Outcome.refused (codes "down")

abbrev failing_run : Run
failing_run = record { send = down; at = 7; locked = λ id. false; limit = 50 }

tries_limit_example :
    tries 2
      (failing_run ∷ failing_run ∷ failing_run ∷ failing_run ∷ failing_run ∷ failing_run ∷ [])
      full_db
    ≤ 5
tries_limit_example =
    tries_limit 2
      (failing_run ∷ failing_run ∷ failing_run ∷ failing_run ∷ failing_run ∷ failing_run ∷ [])
      full_db
      (λ c i. elim i [
        | inl e ↦ rw e (omega arith)
        | inr j ↦ elim j [ inl e ↦ rw e (omega arith) | inr k ↦ elim k [ ] ]
      ])

clear_way-insertable_example :
    let (said, d) =
      clear_way sample_host desk
        (codes "walk-in")
        (overlapping_bookings 1 739888 739892 sample_db)
        sample_db in
    (said ≡ ok tt)
    × ((b : Booking)
        → b.item_id ≡ 1
        → blocked_column b ≡ day_range 739888 739892
        → violates b d.bookings ≡ false)
unfolding overlapping_bookings is_in_way sort_by
clear_way-insertable_example =
    clear_way-insertable sample_host desk (codes "walk-in") 1 739888 739892 sample_db sample_keys
      refl refl

swap_item-candidates_example :
    let end = swap_item 10 2 desk sample_db in
    (row : Booking) × (end.0 ≡ ok row)
    × IsSwapped (sample_booking 10 1 739889 739891 confirmed) (sample_item 2 (codes "40")) row
    × In row end.1.bookings
unfolding from_julian candidates free_items is_free is_in_way sort_by
swap_item-candidates_example =
    swap_item-candidates 10 2 desk sample_db (sample_booking 10 1 739889 739891 confirmed)
      (sample_item 2 (codes "40")) (sample_item 1 (codes "38")) (codes "38") 739888 739892 refl refl
      refl refl refl refl (inl refl)

mark_returned_outcome_example : mark_returned 10 desk false (codes "torn") out_db ≡ (
  ok (
      moved_to
        (sample_booking 10 1 739889 739891 BookingStatus.picked_up)
        BookingStatus.completed
        (codes "torn")),
  returned out_db
      (sample_booking 10 1 739889 739891 BookingStatus.picked_up)
      desk
      false
      (codes "torn"),
)
unfolding can_transition same_status strip lstrip is_space
mark_returned_outcome_example =
    mark_returned_outcome out_db 10 (sample_booking 10 1 739889 739891 BookingStatus.picked_up) desk
      false (codes "torn") refl
