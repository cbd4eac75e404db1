-- ===== src/Tests/Examples.antt =====
-- The theorems at concrete inputs.
use twirl.Prelude.{
  ℕ, ◌+◌, ◌≤◌, ◌≡◌, ◌↔◌, refl, arith, text_eq, inl, false, none, some, List, [], ◌∷◌, Text, codes,
  In,
}
use twirl.Exec.{ok, ◌>>=◌, catch, nested}
use twirl.Model.{Booking, BookingStatus, julian, blocked_column, excludes, same_status, confirmed}
use twirl.Session.{violates, load, update_booking, add_event}
use twirl.Dates.{
  RentalDates, derive_rental_dates, validate_rental_dates, is_open, sub_days, add_days, roll, move,
  blocked_range,
}
use twirl.Dates.Derive.{IsDerived, derive-IsDerived}
use twirl.Dates.Validate.{IsRental, validate_iff, blocked_range-blocked_column}
use twirl.Availability.{is_in_way, FreeQuery, is_free, free_items}
use twirl.Availability.Free.{free-insertable}
use twirl.Timeline.{can_transition, transition, write_transition, as_conflict}
use twirl.Staff.{accept}
use twirl.Timeline.Outcome.{Transitioned, transition-Transitioned}
use twirl.Server.{Op, run, perform, transact}
use twirl.Server.Safety.{never_double_booked, IsExclusive-of_test}
use twirl.Exclusion.Holders.{holders}
use twirl.RateLimit.{RateLimiter}
use twirl.RateLimit.Recent.{recent}
use twirl.RateLimit.Window.{accept_log, window_limit}
use twirl.Tests.Data.{sample_rules, sample_host, sample_item, sample_booking, sample_db, desk}

abbrev sample_dates : RentalDates
sample_dates = record { pickup = 739895; return_ = 739897 }

derived : derive_rental_dates 739896 sample_rules ≡ ok sample_dates
unfolding derive_rental_dates sub_days add_days roll move is_open
derived = refl

derive-IsDerived_example : IsDerived 739896 sample_rules sample_dates
derive-IsDerived_example = derive-IsDerived 739896 sample_rules sample_dates derived

validate_iff_example :
    (validate_rental_dates sample_dates sample_rules 739890 (some 739896) ≡ ok tt)
    ↔ IsRental sample_rules 739890 (some 739896) sample_dates
validate_iff_example = validate_iff sample_dates sample_rules 739890 (some 739896)

blocked_range-blocked_column_example :
    blocked_column (sample_booking 10 1 739889 739891 confirmed)
    ≡ record { lower = julian 739888; upper = julian 739892 + 1 }
unfolding blocked_range sub_days add_days
blocked_range-blocked_column_example =
    blocked_range-blocked_column (sample_booking 10 1 739889 739891 confirmed) 739888 739892 refl

abbrev sample_query : FreeQuery
sample_query = record {
  start = 739888;
  end = 739892;
  style_id = some 1;
  shop_id = none;
  size = some (codes "40");
}

second_is_free : In (sample_item 2 (codes "40")) (free_items sample_query sample_db)
unfolding free_items is_free is_in_way text_eq
second_is_free = inl refl

free-insertable_example :
    violates (sample_booking 12 2 739889 739891 confirmed) sample_db.bookings ≡ false
free-insertable_example =
    free-insertable sample_query sample_db (sample_item 2 (codes "40"))
      (sample_booking 12 2 739889 739891 confirmed) second_is_free refl refl

transition-Transitioned_example :
    Transitioned
      (sample_booking 10 1 739889 739891 confirmed)
      BookingStatus.picked_up
      desk
      []
      sample_db
      (transition 10 BookingStatus.picked_up desk [] sample_db)
transition-Transitioned_example =
    transition-Transitioned sample_db 10 (sample_booking 10 1 739889 739891 confirmed)
      BookingStatus.picked_up desk [] refl

abbrev sample_limiter : RateLimiter
sample_limiter = record { max_events = 2; window = 60; events = λ key. [] }

abbrev sample_calls : List (Text × ℕ)
sample_calls = (codes "a", 1) ∷ (codes "a", 2) ∷ (codes "b", 3) ∷ (codes "a", 4) ∷ []

window_limit_example : recent 60 10 (accept_log sample_limiter (codes "a") sample_calls) ≤ 2
window_limit_example =
    window_limit sample_limiter (codes "a") sample_calls 10 refl
      (omega arith, (omega arith, (omega arith, (omega arith, tt))))

abbrev accepted_booking : Booking
accepted_booking = sample_booking 11 1 739903 739905 confirmed

never_double_booked_example : accepted_booking.id ≡ accepted_booking.id
unfolding run perform transact holders excludes accept transition can_transition same_status
    write_transition load update_booking add_event as_conflict ◌>>=◌ catch nested
never_double_booked_example =
    never_double_booked sample_host (Op.accepted 11 desk ∷ []) sample_db 1 739902 accepted_booking
      accepted_booking (tt, tt) (IsExclusive-of_test sample_db refl) (inl refl) (inl refl)

abbrev used_limiter : RateLimiter
used_limiter = record { max_events = 2; window = 60; events = λ key. 5 ∷ 50 ∷ [] }
