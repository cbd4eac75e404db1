-- ===== src/Dates/Derive.antt =====
-- booking/dates.py: `derive_rental_dates`, and the checks on its result.
use twirl.Prelude.{ℕ, ◌+◌, ◌-◌, ◌≤◌, ◌<◌, ◌≡◌, some, arith, ltb, if◌then◌else◌}
use twirl.Exec.{ok, err}
use twirl.Errors.{invalid_dates, pickup_in_past, too_long}
use twirl.Dates.{
  ShopRules, RentalDates, backward, forward, sub_days, add_days, roll, max_roll_days,
  derive_rental_dates, validate_rental_dates,
}
use twirl.Dates.Roll.{NearestAfter, NearestBefore, roll-forward, roll-backward}

-- The pickup is the last open day at least the lead time before the event, the return the first open
-- day at least the return time after it, and both lie within the loop's fourteen days.
pub record IsDerived (event : ℕ) (rules : ShopRules) (dates : RentalDates) : Type 0 where
  pub lead_fits : rules.pickup_lead_days < event
  pub pickup : NearestBefore rules (event - rules.pickup_lead_days) max_roll_days dates.pickup
  pub return_ : NearestAfter rules (event + rules.return_after_days) max_roll_days dates.return_

-- The rolls that a successful derivation has made; they stay shut.
derive_parts :
    (event : ℕ) (rules : ShopRules) (dates : RentalDates)
    → derive_rental_dates event rules ≡ ok dates
    → (rules.pickup_lead_days < event)
      × (roll max_roll_days (event - rules.pickup_lead_days) backward rules ≡ ok dates.pickup)
      × (roll max_roll_days (event + rules.return_after_days) forward rules ≡ ok dates.return_)
unfolding derive_rental_dates sub_days add_days
derive_parts event rules dates h = ground arith

module _ (event : ℕ) (rules : ShopRules) (dates : RentalDates) where
  -- Dates that `derive_rental_dates` returns are the nearest open days on either side of the event,
  -- at least the lead and return times away from it.
  pub derive-IsDerived : derive_rental_dates event rules ≡ ok dates → IsDerived event rules dates
  derive-IsDerived h =
      let (fits, back, on) = derive_parts event rules dates h in
      record {
        lead_fits = fits;
        pickup =
            roll-backward rules max_roll_days (event - rules.pickup_lead_days) dates.pickup back;
        return_ =
            roll-forward rules max_roll_days (event + rules.return_after_days) dates.return_ on;
      }

  -- A derived rental takes at most the lead and return times and twice thirteen days.
  pub derive_length :
      derive_rental_dates event rules ≡ ok dates
      → dates.return_ - dates.pickup ≤ rules.pickup_lead_days + rules.return_after_days + 26
  derive_length h =
      let d = derive-IsDerived h in
      omega (arith, d.lead_fits, d.pickup.in_reach, d.return_.in_reach)

  -- Of derived dates, `validate_rental_dates` for the same event refuses those whose pickup lies in the
  -- past and those that are too long, in that order, and accepts all others.
  pub validate-derived :
      (today : ℕ)
      → derive_rental_dates event rules ≡ ok dates
      → validate_rental_dates dates rules today (some event) ≡ (
          if ltb dates.pickup today
          then err (invalid_dates pickup_in_past)
          else if ltb rules.max_rental_days (dates.return_ - dates.pickup)
          then err (invalid_dates too_long)
          else ok tt)
  unfolding validate_rental_dates
  validate-derived today h =
      let d = derive-IsDerived h in
      ground (
        arith, d.lead_fits, d.pickup.at_most, d.pickup.open_day, d.return_.at_least,
        d.return_.open_day,
      )
