-- ===== src/Search/Pages.antt =====
-- search.py: `search`, its filters, orders and pages.
use twirl.Prelude.{
  ℕ, ◌+◌, ◌-◌, ◌*◌, ◌/◌, min, max, Bool, true, false, not, ◌&&◌, ◌||◌, Option, none, some, List, [],
  ◌∷◌, map, Text, codes, text_eq, is_empty, where_, any, find, length, take, drop, sort_by, ltb,
  leb, ◌==◌, if◌then◌else◌,
}
use twirl.Exec.{Result, ok, and_then}
use twirl.Errors.{Error}
use twirl.Host.{Host}
use twirl.Model.{
  Db, Shop, Style, StyleCategory, Item, Booking, is_published, is_in_use, category_value,
}
use twirl.Availability.{is_in_way}
use twirl.Sizes.{distinct, sorted_sizes}
use twirl.Search.Days.{Window, wants, date_condition}

abbrev pub page_size : ℕ
page_size = 24

pub record Filters : Type 0 where
  pub event_date : Option ℕ
  pub size : Option Text
  pub city : Option Text
  pub category : Option Text
  pub max_price_cents : Option ℕ
  pub sort : Text
  pub page : ℕ

-- `Filters()`
abbrev pub no_filters : Filters
no_filters = record {
  event_date = none;
  size = none;
  city = none;
  category = none;
  max_price_cents = none;
  sort = codes "newest";
  page = 1;
}

pub record Card : Type 0 where
  pub style : Style
  pub shop : Option Shop
  pub sizes : List Text

pub record Results : Type 0 where
  pub cards : List Card
  pub total : ℕ
  pub page : ℕ
  pub pages : ℕ
  pub date_unreachable : Bool

-- the shop of `Style.shop`
abbrev pub shop_of_style : Style → List Shop → Option Shop
shop_of_style st shops = find (λ s. s.id == st.shop_id) shops

-- the conditions of `_published_styles` on the style
abbrev pub is_style_online : Style → Bool
is_style_online st = st.published && elim st.deleted_at [ none ↦ true | some t ↦ false ]

-- `_published_styles`, with a condition on the shop that it joins
unfoldable pub is_listed : (Shop → Bool) → List Shop → Style → Bool
is_listed p shops st =
    is_style_online st && any (λ s. s.id == st.shop_id && is_published s.status && p s) shops

-- `_free`
unfoldable pub is_clear : (start end : ℕ) → List Booking → Item → Bool
is_clear start end bookings i = not (any (is_in_way i.id start end) bookings)

-- the disjunction that `_date_condition` returns
unfoldable pub meets : Option (List Window) → List Booking → Item → Bool
unfolding is_clear
meets none bookings i = true
meets (some ws) bookings i =
    any (λ w. any (λ id. id == i.shop_id) w.shop_ids && is_clear w.start w.end bookings i) ws

-- `_item_conditions`
unfoldable pub item_conditions : Filters → Option (List Window) → List Booking → Item → Bool
unfolding meets
item_conditions filters dates bookings i =
    is_in_use i.status && wants filters.size i.size && meets dates bookings i

abbrev pub in_category : Option Text → Option StyleCategory → Bool
in_category none c = true
in_category (some t) none = is_empty t
in_category (some t) (some c) = is_empty t || text_eq (category_value c) t

abbrev pub in_budget : Option ℕ → ℕ → Bool
in_budget none cents = true
in_budget (some limit) cents = leb cents limit

-- the WHERE clause of `search`
unfoldable pub is_match : Filters → Option (List Window) → Db → Style → Bool
unfolding is_listed item_conditions
is_match filters dates db st =
    is_listed (λ s. wants filters.city s.city) db.shops st
    && any (λ i. i.style_id == st.id && item_conditions filters dates db.bookings i) db.items
    && in_category filters.category st.category
    && in_budget filters.max_price_cents st.price_cents

-- ORDER BY a number, then `id DESC`
abbrev pub ascending : (Style → ℕ) → Style → Style → Bool
ascending key a b = ltb (key a) (key b) || (key a == key b && leb b.id a.id)

abbrev pub descending : (Style → ℕ) → Style → Style → Bool
descending key a b = ltb (key b) (key a) || (key a == key b && leb b.id a.id)

unfoldable pub order : Text → Style → Style → Bool
order sort =
    if text_eq sort (codes "price_asc")
    then ascending (λ s. s.price_cents)
    else if text_eq sort (codes "price_desc")
    then descending (λ s. s.price_cents)
    else descending (λ s. s.created_at)

-- max(1, -(-total // PAGE_SIZE))
unfoldable pub page_count : ℕ → ℕ
page_count total = max 1 ((total + (page_size - 1)) / page_size)

-- LIMIT and OFFSET
unfoldable pub page_of {ℓ} : {A : Type ℓ} → ℕ → List A → List A
page_of page rows = take page_size (drop ((page - 1) * page_size) rows)

-- the sizes that are collected for a style
unfoldable pub sizes_of : Option (List Window) → Db → Style → List Text
unfolding item_conditions
sizes_of dates db st =
    map (λ i. i.size)
      (where_ (λ i. i.style_id == st.id && item_conditions no_filters dates db.bookings i) db.items)

unfoldable pub card_for : Host → Option (List Window) → Db → Style → Result Error Card
unfolding sizes_of
card_for host dates db st =
    and_then (sorted_sizes host (distinct (sizes_of dates db st)))
      λ sizes. ok (record { style = st; shop = shop_of_style st db.shops; sizes = sizes })

unfoldable pub cards_for : Host → Option (List Window) → Db → List Style → Result Error (List Card)
unfolding card_for
cards_for host dates db [] = ok []
cards_for host dates db (st ∷ sts) =
    and_then (card_for host dates db st)
      λ card. and_then (cards_for host dates db sts) λ cards. ok (card ∷ cards)

-- the styles that match, in the order asked for
unfoldable pub matches : Filters → Option (List Window) → Db → List Style
unfolding is_match order
matches filters dates db =
    sort_by (order filters.sort) (where_ (is_match filters dates db) db.styles)

-- `search` from its first query on
unfoldable pub search_within : Host → Filters → Option (List Window) → Db → Result Error Results
search_within host filters dates db =
    let total = length (matches filters dates db) in
    let pages = page_count total in
    let page = min (max 1 filters.page) pages in
    and_then (cards_for host dates db (page_of page (matches filters dates db))) λ cards.
      ok (record {
        cards = cards;
        total = total;
        page = page;
        pages = pages;
        date_unreachable = false;
      })

abbrev pub unreachable_date : Results
unreachable_date = record { cards = []; total = 0; page = 1; pages = 1; date_unreachable = true }

-- `search` once the windows of its date are known
abbrev pub search_dated : Host → Filters → Db → Option (List Window) → Result Error Results
search_dated host filters db none = ok unreachable_date
search_dated host filters db (some ws) = search_within host filters (some ws) db

abbrev pub search_on : Host → Filters → (today : ℕ) → Db → Option ℕ → Result Error Results
search_on host filters today db none = search_within host filters none db
search_on host filters today db (some event) =
    and_then (date_condition event filters.city today db) (search_dated host filters db)

unfoldable pub search : Host → Filters → (today : ℕ) → Db → Result Error Results
search host filters today db = search_on host filters today db filters.event_date
