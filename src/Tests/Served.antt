-- ===== src/Tests/Served.antt =====
-- A request on the sample data: served on the second item, refused where no item has the size.
use twirl.Prelude.{
  ◌≡◌, refl, arith, false, [], Text, codes, strip, lstrip, is_space, show, sort_by, text_eq, In,
}
use twirl.Exec.{ok, ◌>>=◌}
use twirl.Host.{upper_text, normalize_phone}
use twirl.Model.{Booking}
use twirl.Sizes.{normalize_size}
use twirl.Codes.{choice, code_from, random_code, try_refs, new_booking_ref}
use twirl.Dates.{
  derive_rental_dates, validate_rental_dates, is_open, sub_days, add_days, roll, move,
  blocked_range, rules_for_shop,
}
use twirl.Availability.{is_in_way, is_free, free_items}
use twirl.Requests.{RentalRequest, Rivals, Plan, bookable_style, make_plan, pick_item, attempts}
use twirl.Requests.Served.{CanStore, FitsPlan, request_served}
use twirl.Tests.Data.{sample_host, sample_shop, sample_style, sample_item, sample_db}

abbrev asked : Text → RentalRequest
asked size = record {
  style_id = 1;
  size = size;
  event_date = 739890;
  name = codes "Arta";
  phone = codes "044111222";
  note = [];
}

abbrev nobody : Rivals
nobody = record { locks = λ n i. false; commits = λ n db. db }

abbrev plan : Text → Plan
plan size = record {
  style = sample_style;
  shop = sample_shop;
  dates = record { pickup = 739889; return_ = 739891 };
  start = 739888;
  end = 739892;
  size = size;
  phone = codes "+3839";
}

-- The request names the style of the sample shop, and its plan is the one above.
style_found : bookable_style 1 sample_db ≡ ok (sample_style, sample_shop)
unfolding bookable_style
style_found = refl

planned :
    make_plan sample_host (asked (codes "40")) 739880 (sample_style, sample_shop)
    ≡ ok (plan (codes "40"))
unfolding make_plan rules_for_shop derive_rental_dates validate_rental_dates is_open sub_days
    add_days roll move blocked_range normalize_size upper_text normalize_phone strip lstrip is_space
    show
planned = refl

abbrev first_ref : Text
first_ref = codes "ACDEFH"

can_store :
    CanStore (plan (codes "40")) sample_db (asked (codes "40")) (sample_item 2 (codes "40")) 1
unfolding blocked_range sub_days add_days
can_store = record { ordered = omega arith; window = refl; item = λ ref. refl; customer = refl }

request_served_example :
    let end = attempts sample_host nobody (asked (codes "40")) (plan (codes "40")) 1 5 sample_db in
    (row : Booking) × (end.0 ≡ ok row)
    × FitsPlan (plan (codes "40")) (asked (codes "40")) 2 1 row
    × In row end.1.bookings
unfolding pick_item free_items is_free is_in_way text_eq sort_by new_booking_ref try_refs
    random_code code_from choice ◌>>=◌
request_served_example =
    request_served sample_host nobody (asked (codes "40")) (plan (codes "40")) 1 4 sample_db
      (sample_item 2 (codes "40")) first_ref (record sample_db { drawn = 6 }) refl refl refl
      can_store
