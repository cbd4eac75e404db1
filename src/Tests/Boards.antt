-- ===== src/Tests/Boards.antt =====
-- The board, the texts of the notifications and a first listing, on the sample data.
use twirl.Prelude.{
  ℕ, ◌≡◌, ◌↔◌, refl, arith, ◌⊎◌, true, false, some, List, [], ◌∷◌, ◌++◌, codes, any, In,
}
use twirl.Exec.{ok, err}
use twirl.Errors.{onboarding_error, terms, incomplete}
use twirl.Model.{
  Booking, confirmed, new_request_shop, new_request_admin, booking_at_risk_admin,
  request_expired_admin, excludes, Shop,
}
use twirl.Dates.{covers}
use twirl.Exclusion.Holders.{holds}
use twirl.Server.Safety.{IsExclusive-of_test}
use twirl.Notify.{booking_payload}
use twirl.Notify.Templates.{render}
use twirl.Notify.Templates.Rendered.{succeeds, booking_payload-render}
use twirl.Board.{cell, by_item, week_bookings}
use twirl.Board.Calendar.{cell_iff}
use twirl.Onboarding.{contiguous_ranges, publish, put_style, put_shop}
use twirl.Onboarding.Ranges.{contiguous_ranges_iff}
use twirl.Onboarding.Listing.{IsComplete, HasAccepted, publish_outcome}
use twirl.Onboarding.Provider.{WeeklyHours}
use twirl.Tests.Data.{
  sample_host, sample_shop, sample_style, sample_booking, sample_db, sample_keys,
}

abbrev first_booking : Booking
first_booking = sample_booking 10 1 739889 739891 confirmed

cell_iff_example :
    (cell (by_item 1 (week_bookings 1 739887 739893 sample_db)) 739892 ≡ some first_booking) ↔ (
      In first_booking sample_db.bookings
      × (first_booking.shop_id ≡ sample_shop.id)
      × (holds 1 739892 first_booking ≡ true))
unfolding excludes
cell_iff_example =
    cell_iff 1 739887 1 739892 sample_db first_booking (omega arith) (omega arith) sample_keys
      (IsExclusive-of_test sample_db refl)

booking_payload-render_example :
    let p = booking_payload sample_host first_booking sample_db in
    (succeeds (render new_request_shop p (codes "https://x")) ≡ true)
    × (succeeds (render new_request_admin p (codes "https://x")) ≡ true)
    × (succeeds (
          render booking_at_risk_admin
            (p ++ (codes "reason", codes "walk-in") ∷ [])
            (codes "https://x"))
        ≡ true)
    × (succeeds
          (render request_expired_admin (p ++ (codes "hours", codes "24") ∷ []) (codes "https://x"))
        ≡ true)
booking_payload-render_example =
    booking_payload-render sample_host first_booking sample_db (codes "https://x") (codes "walk-in")
      (codes "24")

abbrev busy_days : List ℕ
busy_days = 9 ∷ 7 ∷ 8 ∷ 8 ∷ 12 ∷ []

contiguous_ranges_iff_example :
    (any (covers 8) (contiguous_ranges busy_days) ≡ true) ↔ In 8 busy_days
contiguous_ranges_iff_example = contiguous_ranges_iff 8 busy_days

publish_outcome_example :
    let (said, d) = publish 1 1 true 5 sample_db in
    ((said ≡ err (onboarding_error terms)) × (true ≡ false) × (d ≡ sample_db))
    ⊎ (((said ≡ err (onboarding_error incomplete))
          × (true ≡ true)
          × ¬ IsComplete sample_style sample_db
          × (d ≡ sample_db))
        ⊎ ((said ≡ ok tt)
            × (true ≡ true)
            × IsComplete sample_style sample_db
            × (d.styles ≡ put_style (record sample_style { published = true }) sample_db.styles)
            × ((after : Shop) × HasAccepted sample_shop 5 after
                × (d.shops ≡ put_shop after sample_db.shops))))
publish_outcome_example = publish_outcome 1 1 true 5 sample_db sample_shop sample_style refl refl

abbrev office : WeeklyHours
office = record {
  weekday_open = 540;
  weekday_close = 1200;
  saturday_open = 540;
  saturday_close = 1080;
  sunday_closed = true;
}
