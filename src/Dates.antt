-- ===== src/Dates.antt =====
-- booking/dates.py and booking/rules.py. A `date` is its ordinal, 1 to 3652059.
pub mod Roll
pub mod Derive
pub mod Validate
use twirl.Prelude.{
  ℕ, zero, suc, ◌+◌, ◌-◌, ◌%◌, Bool, true, false, not, ◌&&◌, Option, none, some, List, map, Text,
  any, where_, ltb, leb, ◌==◌, if◌then◌else◌,
}
use twirl.Exec.{Result, ok, err, and_then}
use twirl.Errors.{
  Error, invalid_dates, overflow_error, no_open_day, pickup_in_past, return_before_pickup, too_long,
  event_outside_rental, pickup_closed, return_closed,
}
use twirl.Model.{Shop, ShopHours, ShopClosure}

abbrev pub max_roll_days : ℕ
max_roll_days = 14

-- date.max.toordinal()
abbrev pub date_max : ℕ
date_max = 3652059

-- date - timedelta(days=n)
unfoldable pub sub_days : ℕ → ℕ → Result Error ℕ
sub_days day n = if ltb n day then ok (day - n) else err overflow_error

-- date + timedelta(days=n)
unfoldable pub add_days : ℕ → ℕ → Result Error ℕ
add_days day n = if leb (day + n) date_max then ok (day + n) else err overflow_error

-- `date.weekday()`: ordinal 1 is a Monday, which is 0.
abbrev pub weekday : ℕ → ℕ
weekday day = (day + 6) % 7

pub record ShopRules : Type 0 where
  pub pickup_lead_days : ℕ
  pub return_after_days : ℕ
  pub prep_days : ℕ
  pub cleaning_days : ℕ
  pub max_rental_days : ℕ
  pub closed_weekdays : List ℕ
  pub closures : List (ℕ × ℕ)

abbrev pub covers : ℕ → ℕ × ℕ → Bool
covers day (start, end) = leb start day && leb day end

unfoldable pub is_open : ShopRules → ℕ → Bool
is_open rules day =
    if any (λ w. w == weekday day) rules.closed_weekdays
    then false
    else not (any (covers day) rules.closures)

pub record RentalDates : Type 0 where
  pub pickup : ℕ
  pub return_ : ℕ

-- the `step` of `_roll`, -1 or 1
pub data Step : Type 0 where
  backward forward : Step

unfoldable pub move : Step → ℕ → Result Error ℕ
unfolding sub_days add_days
move backward day = sub_days day 1
move forward day = add_days day 1

-- `_roll`, over the rounds that its loop has left
unfoldable pub roll : ℕ → ℕ → Step → ShopRules → Result Error ℕ
roll zero day step rules = err (invalid_dates no_open_day)
roll (suc rounds) day step rules =
    let rest = and_then (move step day) (λ d. roll rounds d step rules) in
    if is_open rules day then ok day else rest

unfoldable pub derive_rental_dates : ℕ → ShopRules → Result Error RentalDates
derive_rental_dates event rules = and_then (sub_days event rules.pickup_lead_days) λ first.
    and_then (roll max_roll_days first backward rules) λ pickup.
      and_then (add_days event rules.return_after_days) λ last.
        and_then (roll max_roll_days last forward rules)
          λ return_. ok (record { pickup = pickup; return_ = return_ })

-- `event is not None and not dates.pickup <= event <= dates.return_`
abbrev pub is_outside : Option ℕ → RentalDates → Bool
is_outside none dates = false
is_outside (some event) dates = not (leb dates.pickup event && leb event dates.return_)

unfoldable pub validate_rental_dates :
    RentalDates → ShopRules → (today : ℕ) → Option ℕ → Result Error (Unit {0})
validate_rental_dates dates rules today event =
    if ltb dates.pickup today
    then err (invalid_dates pickup_in_past)
    else if ltb dates.return_ dates.pickup
    then err (invalid_dates return_before_pickup)
    else if ltb rules.max_rental_days (dates.return_ - dates.pickup)
    then err (invalid_dates too_long)
    else if is_outside event dates
    then err (invalid_dates event_outside_rental)
    else if not (is_open rules dates.pickup)
    then err (invalid_dates pickup_closed)
    else if not (is_open rules dates.return_)
    then err (invalid_dates return_closed)
    else ok tt

unfoldable pub blocked_range : RentalDates → (prep_days cleaning_days : ℕ) → Result Error (ℕ × ℕ)
unfolding sub_days add_days
blocked_range dates prep_days cleaning_days =
    and_then (sub_days dates.pickup prep_days)
      λ start. and_then (add_days dates.return_ cleaning_days) λ end. ok (start, end)

-- rules.py
unfoldable pub rules_for_shop : Shop → ShopRules
rules_for_shop shop = record {
  pickup_lead_days = shop.pickup_lead_days;
  return_after_days = shop.return_after_days;
  prep_days = shop.prep_days;
  cleaning_days = shop.cleaning_days;
  max_rental_days = shop.max_rental_days;
  closed_weekdays = map (λ h. h.weekday) (where_ (λ h. h.closed) shop.hours);
  closures = map (λ c. (c.starts_on, c.ends_on)) shop.closures;
}
