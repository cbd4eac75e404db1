-- ===== src/Tests/Storefront.antt =====
-- web/storefront.py, web/pages.py and style_availability on the sample shop.
use twirl.Prelude.{
  ◌≡◌, ◌↔◌, refl, inl, inr, true, false, some, [], ◌∷◌, codes, sort_by, insert_by, text_eq,
  text_leb,
}
use twirl.Exec.{ok}
use twirl.Dates.{
  derive_rental_dates, sub_days, move, rules_for_shop, roll, is_open, add_days,
  validate_rental_dates, blocked_range,
}
use twirl.Sizes.{
  size_sort_key, sort_keys, sorted_sizes, distinct, key_leb, without_point, float_from, place_of,
}
use twirl.Availability.{free_items, is_free, is_in_way}
use twirl.Availability.Sized.{
  StyleAvailability, style_availability, style_availability_iff, HasFree, sizes_in_use, free_sizes,
}
use twirl.RateLimit.{RateLimiter}
use twirl.Requests.{Rivals}
use twirl.Storefront.{RequestForm}
use twirl.Home.{safe_next, loosen, any_size}
use twirl.Home.Links.{IsOwnPath, safe_next-IsOwnPath, IsWorth, loosen-IsWorth}
use twirl.Search.Pages.{
  Filters, no_filters, search, search_within, cards_for, page_of, page_count, matches,
}
use twirl.Tests.Data.{sample_host, sample_shop, sample_db}

abbrev party_answer : StyleAvailability
party_answer = record {
  dates = record { pickup = 739899; return_ = 739901 };
  sizes = (codes "38", false) ∷ (codes "40", true) ∷ [];
}

party_availability :
    style_availability sample_host 1 sample_shop 739900 739880 sample_db ≡ ok party_answer
unfolding style_availability derive_rental_dates sub_days move rules_for_shop roll is_open add_days
    validate_rental_dates blocked_range sorted_sizes sort_keys size_sort_key without_point
    float_from place_of key_leb text_eq text_leb distinct sort_by insert_by sizes_in_use free_sizes
    free_items is_free is_in_way
party_availability = refl

style_availability_iff_example :
    (true ≡ true) ↔ HasFree 1 sample_shop sample_db party_answer.dates (codes "40")
style_availability_iff_example =
    style_availability_iff sample_host 1 sample_shop 739900 739880 sample_db party_answer
      (codes "40") true party_availability (inr (inl refl))

abbrev alone : Rivals
alone = record { locks = λ n i. false; commits = λ n db. db }

abbrev limiter : RateLimiter
limiter = record { max_events = 5; window = 3600; events = λ key. [] }

abbrev party_form : RequestForm
party_form = record {
  website = [];
  parsed = some (record {
    style_id = 0;
    size = codes "40";
    event_date = 739900;
    name = codes "Arta";
    phone = codes "049 123";
    note = [];
  });
}

safe_next-IsOwnPath_example : IsOwnPath (safe_next (some (codes "//evil.example")) (codes "/"))
safe_next-IsOwnPath_example = safe_next-IsOwnPath (some (codes "//evil.example")) (codes "/") refl

abbrev narrow : Filters
narrow = record no_filters { size = some (codes "99") }

loosen-IsWorth_example : IsWorth sample_host narrow 739880 sample_db any_size 1
unfolding loosen search search_within cards_for page_of page_count matches sort_by sorted_sizes
    distinct text_eq size_sort_key
loosen-IsWorth_example =
    loosen-IsWorth sample_host narrow 739880 sample_db ((any_size, 1) ∷ []) any_size 1 refl
      (inl refl)
