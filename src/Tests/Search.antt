-- ===== src/Tests/Search.antt =====
-- search.py on the sample shop.
use twirl.Prelude.{
  ℕ, ◌≡◌, ◌≤◌, refl, inl, inr, false, some, none, List, [], ◌∷◌, map, codes, length, In,
}
use twirl.Exec.{ok}
use twirl.Model.{Item}
use twirl.Dates.{
  derive_rental_dates, sub_days, move, rules_for_shop, roll, is_open, add_days,
  validate_rental_dates, blocked_range,
}
use twirl.Prelude.{sort_by, insert_by, text_eq, text_leb}
use twirl.Availability.{is_in_way}
use twirl.Sizes.{
  size_sort_key, sort_keys, sorted_sizes, distinct, key_leb, without_point, float_from, place_of,
}
use twirl.Search.Days.{Window, date_condition, published_shops, earliest_date, upcoming_saturdays}
use twirl.Search.Pages.{
  Filters, Card, Results, search, no_filters, matches, search_within, cards_for, page_of,
  page_count, is_match, is_listed, item_conditions, meets, is_clear, order, card_for, sizes_of,
}
use twirl.Search.Rentable.{IsRentable}
use twirl.Search.Cards.{HasKey}
use twirl.Search.Found.{search-IsRentable, search_complete, search-IsPage, IsPage}
use twirl.Search.Shortcuts.{
  earliest_date-EarliestOf, EarliestOf, upcoming_saturdays-IsShortcut, IsShortcut,
}
use twirl.Tests.Data.{sample_host, sample_shop, sample_style, sample_db}

abbrev party_filters : Filters
party_filters = record no_filters { event_date = some 739900 }

abbrev party_windows : List Window
party_windows = record { start = 739898; end = 739902; shop_ids = 1 ∷ [] } ∷ []

abbrev party_card : Card
party_card = record { style = sample_style; shop = some sample_shop; sizes = codes "40" ∷ [] }

abbrev party_results : Results
party_results = record {
  cards = party_card ∷ [];
  total = 1;
  page = 1;
  pages = 1;
  date_unreachable = false;
}

party_found : date_condition 739900 none 739880 sample_db ≡ ok (some party_windows)
unfolding date_condition published_shops derive_rental_dates sub_days rules_for_shop roll is_open
    add_days validate_rental_dates blocked_range
party_found = refl

party_search : search sample_host party_filters 739880 sample_db ≡ ok party_results
unfolding search date_condition published_shops derive_rental_dates sub_days rules_for_shop roll
    is_open add_days validate_rental_dates blocked_range search_within cards_for page_of page_count
    matches sort_by is_match is_listed item_conditions meets is_clear is_in_way order card_for
    sizes_of distinct sorted_sizes sort_keys size_sort_key without_point float_from place_of key_leb
    text_eq text_leb insert_by
party_search = refl

search-IsRentable_example : IsRentable party_filters 739900 739880 sample_db sample_style
search-IsRentable_example =
    search-IsRentable sample_host party_filters 739900 739880 sample_db party_results party_card
      refl party_search (inl refl)

sizes_sort : (i : Item) → In i sample_db.items → HasKey sample_host i.size
unfolding size_sort_key without_point float_from
sizes_sort i (inl e) =
    rw e
      (record { group = 0; number = record { mantissa = 38; scale = 0 }; size = codes "38" }, refl)
sizes_sort i (inr (inl e)) =
    rw e
      (record { group = 0; number = record { mantissa = 40; scale = 0 }; size = codes "40" }, refl)
sizes_sort i (inr (inr n)) = elim n [ ]

search_complete_example :
    (page : ℕ) × (r : Results) × (search sample_host
        (record party_filters { page = page })
        739880
        sample_db
      ≡ ok r)
    × (r.page ≡ page)
    × In sample_style (map (λ c. c.style) r.cards)
search_complete_example =
    search_complete sample_host party_filters 739900 739880 sample_db party_windows sample_style
      refl party_found sizes_sort search-IsRentable_example

search-IsPage_example : IsPage party_results
search-IsPage_example =
    search-IsPage sample_host party_filters 739880 sample_db party_results party_search

first_day : earliest_date none 739880 30 sample_db ≡ ok (some 739881)
unfolding earliest_date add_days published_shops derive_rental_dates sub_days rules_for_shop roll
    is_open validate_rental_dates
first_day = refl

earliest_date-EarliestOf_example :
    EarliestOf (published_shops none sample_db) 739880 30 (some 739881)
earliest_date-EarliestOf_example =
    earliest_date-EarliestOf none 739880 30 sample_db (some 739881) first_day

abbrev saturday_list : List ℕ
saturday_list = 739885 ∷ 739892 ∷ 739899 ∷ []

saturdays : upcoming_saturdays none 739880 3 8 sample_db ≡ ok saturday_list
unfolding upcoming_saturdays add_days published_shops derive_rental_dates sub_days rules_for_shop
    roll is_open move validate_rental_dates
saturdays = refl

upcoming_saturdays-IsShortcut_example :
    (length saturday_list ≤ 3)
    × ((day : ℕ) → In day saturday_list → IsShortcut (published_shops none sample_db) 739880 8 day)
upcoming_saturdays-IsShortcut_example =
    upcoming_saturdays-IsShortcut none 739880 3 8 sample_db saturday_list saturdays
