-- ===== src/Dates/Validate.antt =====
-- booking/dates.py: `validate_rental_dates` and `blocked_range`
use twirl.Prelude.{ℕ, ◌+◌, ◌-◌, ◌≤◌, ◌≡◌, ◌↔◌, true, Option, none, some, arith}
use twirl.Exec.{ok}
use twirl.Model.{Booking, blocked_column, julian}
use twirl.Dates.{
  ShopRules, RentalDates, sub_days, add_days, is_open, validate_rental_dates, blocked_range,
}

abbrev pub IsDuring : Option ℕ → RentalDates → Type 0
IsDuring none dates = Unit
IsDuring (some event) dates = (dates.pickup ≤ event) × (event ≤ dates.return_)

pub record IsRental (rules : ShopRules) (today : ℕ) (event : Option ℕ) (dates : RentalDates)
    : Type 0 where
  pub not_past : today ≤ dates.pickup
  pub ordered : dates.pickup ≤ dates.return_
  pub short : dates.return_ - dates.pickup ≤ rules.max_rental_days
  pub during : IsDuring event dates
  pub pickup_open : is_open rules dates.pickup ≡ true
  pub return_open : is_open rules dates.return_ ≡ true

-- `validate_rental_dates` lets through exactly the dates that satisfy every rule: a pickup from today
-- on, a return no earlier, a length within the limit, the event between them, and the shop open on both.
pub validate_iff :
    (dates : RentalDates) (rules : ShopRules) (today : ℕ) (event : Option ℕ)
    → (validate_rental_dates dates rules today event ≡ ok tt) ↔ IsRental rules today event dates
unfolding validate_rental_dates
validate_iff dates rules today none = (λ h. ground arith, λ r. ground arith)
validate_iff dates rules today (some event) = (λ h. ground arith, λ r. ground arith)

-- The window that Python computes for a rental is the range of the row that stores it: `blocked_range`
-- returns the first and the last day of the computed column.
pub blocked_range-blocked_column :
    (b : Booking) (start end : ℕ)
    → blocked_range
        (record { pickup = b.pickup_date; return_ = b.return_date })
        b.prep_days
        b.cleaning_days
      ≡ ok (start, end)
    → blocked_column b ≡ record { lower = julian start; upper = julian end + 1 }
unfolding blocked_range sub_days add_days
blocked_range-blocked_column b start end h = ground arith
