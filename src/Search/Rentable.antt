-- ===== src/Search/Rentable.antt =====
-- search.py: the conditions of `search` for a date.
use twirl.Prelude.{
  ℕ, ◌≡◌, ◌↔◌, refl, sym, ◌∙◌, inl, inr, Bool, true, ◌&&◌, Option, none, some, List, Text,
  text_eq_refl, ==-refl, any, any-true, any-witness, In, In-where, where-In, In-sort_by, sort_by-In,
  where_, arith, ◌==◌,
}
use twirl.Exec.{Result, ok, err, and_then, Result-cases}
use twirl.Errors.{Error, invalid_dates}
use twirl.Model.{Db, Shop, Style, Booking, Item, is_in_use, is_published}
use twirl.Dates.{
  RentalDates, ShopRules, derive_rental_dates, validate_rental_dates, blocked_range, rules_for_shop,
}
use twirl.Availability.{FreeQuery, free_items, is_free}
use twirl.Search.Days.{
  Window, wants, published_shops, checked_dates, window_for, on_invalid_dates, blocked_window,
  date_condition,
}
use twirl.Search.Pages.{
  Filters, is_match, is_listed, is_clear, item_conditions, in_category, in_budget, meets, matches,
  order,
}
use twirl.Search.Windows.{serves, clear_in, meets-date_condition}

-- The dates that a shop's rules derive for the event are valid today, and block the window.
pub record IsWindow (shop : Shop) (event today start end : ℕ) : Type 0 where
  pub dates : RentalDates
  pub derived : derive_rental_dates event (rules_for_shop shop) ≡ ok dates
  pub valid : validate_rental_dates dates (rules_for_shop shop) today (some event) ≡ ok tt
  pub blocks :
      blocked_range dates (rules_for_shop shop).prep_days (rules_for_shop shop).cleaning_days
      ≡ ok (start, end)

-- the query of `pick_item` for an item of the style and size
abbrev pub item_query : (style_id shop_id start end : ℕ) → Text → FreeQuery
item_query style_id shop_id start end size = record {
  start = start;
  end = end;
  style_id = some style_id;
  shop_id = some shop_id;
  size = some size;
}

on_invalid_none :
    (rules : ShopRules) (e : Error) (w : ℕ × ℕ)
    → and_then (on_invalid_dates (err e) none) (blocked_window rules) ≡ ok (some w)
    → ⊥
on_invalid_none rules (invalid_dates code) w h = cc
on_invalid_none rules _ w h = cc

window_parts :
    (rules : ShopRules) (derived : Result Error RentalDates)
    (check : RentalDates → Result Error (Unit {0})) (w : ℕ × ℕ)
    → and_then
        (on_invalid_dates
          (and_then (and_then derived (λ d. and_then (check d) (λ _. ok d))) (λ d. ok (some d)))
          none)
        (blocked_window rules)
      ≡ ok (some w)
    → (d : RentalDates) × (derived ≡ ok d)
      × (check d ≡ ok tt)
      × (blocked_range d rules.prep_days rules.cleaning_days ≡ ok w)
window_parts rules (err e) check w h = absurd (on_invalid_none rules e w h)
window_parts rules (ok d) check w h = elim (Result-cases (check d)) [
  | inl (tt, c) ↦ (d, refl, c, ground (arith, h, c))
  | inr (e, c) ↦ absurd (on_invalid_none rules e w (rw c at h))
]

window_for-IsWindow :
    (shop : Shop) (event today start end : ℕ)
    → window_for shop event today ≡ ok (some (start, end))
    → IsWindow shop event today start end
unfolding window_for checked_dates
window_for-IsWindow shop event today start end h =
    let rules = rules_for_shop shop in
    let (dates, derived, valid, blocks) =
      window_parts rules (derive_rental_dates event rules)
        (λ d. validate_rental_dates d rules today (some event)) (start, end) h in
    record { dates = dates; derived = derived; valid = valid; blocks = blocks }

IsWindow-window_for :
    (shop : Shop) (event today start end : ℕ)
    → IsWindow shop event today start end
    → window_for shop event today ≡ ok (some (start, end))
unfolding window_for checked_dates
IsWindow-window_for shop event today start end w = rw (w.derived, w.valid, w.blocks) refl

module _ (bookings : List Booking) (i : Item) where
  clear_parts :
      (shop_id : ℕ) (r : Result Error (Option (ℕ × ℕ)))
      → clear_in bookings i shop_id r ≡ true
      → (start : ℕ) × (end : ℕ) × (r ≡ ok (some (start, end)))
        × (shop_id ≡ i.shop_id)
        × (is_clear start end bookings i ≡ true)
  clear_parts shop_id (err e) h = cc
  clear_parts shop_id (ok none) h = cc
  clear_parts shop_id (ok (some (start, end))) h = (start, end, refl, ground arith, ground arith)

-- A stored item that a published shop of the city can rent out for the event: in use, of the style, of
-- the wanted size, and free for the whole window that the shop's own rules ask for.
pub record IsOffer (filters : Filters) (event today : ℕ) (db : Db) (style_id : ℕ) (shop : Shop)
    (item : Item) (start end : ℕ) : Type 0 where
  pub stored : In shop db.shops
  pub published : is_published shop.status ≡ true
  pub city : wants filters.city shop.city ≡ true
  pub window : IsWindow shop event today start end
  pub size : wants filters.size item.size ≡ true
  pub free : In item (free_items (item_query style_id shop.id start end item.size) db)

-- A stored style that is listed, within the filters, and offered for the event.
pub record IsRentable (filters : Filters) (event today : ℕ) (db : Db) (st : Style) : Type 0 where
  pub stored : In st db.styles
  pub listed : is_listed (λ s. wants filters.city s.city) db.shops st ≡ true
  pub category : in_category filters.category st.category ≡ true
  pub budget : in_budget filters.max_price_cents st.price_cents ≡ true
  pub offer :
      (shop : Shop) × (item : Item) × (start : ℕ) × (end : ℕ) × IsOffer filters event today db st.id
        shop item start end

module _ (filters : Filters) (event today : ℕ) (db : Db) where
  shop_parts :
      (s : Shop)
      → In s (published_shops filters.city db)
      → In s db.shops × (is_published s.status ≡ true) × (wants filters.city s.city ≡ true)
  unfolding published_shops
  shop_parts s i =
      let (stored, t) =
        In-where (λ (s : Shop). is_published s.status && wants filters.city s.city) s db.shops i in
      (stored, ground arith, ground arith)

  free_item :
      (st_id start end : ℕ) (s : Shop) (i : Item)
      → In i db.items
      → i.style_id ≡ st_id
      → s.id ≡ i.shop_id
      → is_in_use i.status ≡ true
      → is_clear start end db.bookings i ≡ true
      → In i (free_items (item_query st_id s.id start end i.size) db)
  unfolding free_items is_free is_clear
  free_item st_id start end s i stored style shop in_use clear =
      where-In (is_free (item_query st_id s.id start end i.size) db.bookings) i db.items stored
        (rw (style, shop, in_use, ==-refl i.shop_id, text_eq_refl i.size) (ground arith))

  -- An item that passes the conditions is offered by some shop.
  item-IsOffer :
      (st_id : ℕ) (ws : List Window) (i : Item)
      → date_condition event filters.city today db ≡ ok (some ws)
      → In i db.items
      → (i.style_id == st_id && item_conditions filters (some ws) db.bookings i) ≡ true
      → (shop : Shop) × (item : Item) × (start : ℕ) × (end : ℕ) × IsOffer filters event today db
          st_id shop item start end
  unfolding item_conditions
  item-IsOffer st_id ws i found stored h =
      let (style, in_use, size, m) =
        item_parts (i.style_id) st_id (is_in_use i.status) (wants filters.size i.size)
          (meets (some ws) db.bookings i) h in
      let (s, listed, t) =
        any-witness (serves db.bookings i event today) (published_shops filters.city db)
          (sym (meets-date_condition db.bookings i event filters.city today db ws found) ∙ m) in
      let (start, end, w, shop, clear) =
        clear_parts db.bookings i s.id (window_for s event today) t in
      let (s_stored, published, city) = shop_parts s listed in
      (
        s,
        i,
        start,
        end,
        record {
          stored = s_stored;
          published = published;
          city = city;
          window = window_for-IsWindow s event today start end w;
          size = size;
          free = free_item st_id start end s i stored style shop in_use clear;
        },
      )
    where
      item_parts :
          (a b : ℕ) (x y z : Bool)
          → (a == b && (x && y && z)) ≡ true
          → (a ≡ b) × (x ≡ true) × (y ≡ true) × (z ≡ true)
      item_parts a b x y z h = ground arith

  free_parts :
      (st_id shop_id start end : ℕ) (size : Text) (i : Item)
      → In i (free_items (item_query st_id shop_id start end size) db)
      → In i db.items
        × ((i.style_id == st_id) ≡ true)
        × (i.shop_id ≡ shop_id)
        × (is_in_use i.status ≡ true)
        × (is_clear start end db.bookings i ≡ true)
  unfolding free_items is_free is_clear
  free_parts st_id shop_id start end size i h =
      let (stored, t) =
        In-where (is_free (item_query st_id shop_id start end size) db.bookings) i db.items h in
      (stored, ground arith, ground arith, ground arith, ground arith)

  offer_shop :
      (st_id : ℕ) (shop : Shop) (i : Item) (start end : ℕ)
      → IsOffer filters event today db st_id shop i start end
      → In shop (published_shops filters.city db)
  unfolding published_shops
  offer_shop st_id shop i start end o =
      where-In (λ (s : Shop). is_published s.status && wants filters.city s.city) shop db.shops
        o.stored (rw (o.published, o.city) refl)

  offer_serves :
      (st_id : ℕ) (shop : Shop) (i : Item) (start end : ℕ)
      → IsOffer filters event today db st_id shop i start end
      → serves db.bookings i event today shop ≡ true
  offer_serves st_id shop i start end o =
      let parts = free_parts st_id shop.id start end i.size i o.free in
      rw
        (IsWindow-window_for shop event today start end o.window, parts.4, parts.2, ==-refl shop.id)
        refl

  offer_item :
      (st_id : ℕ) (ws : List Window) (shop : Shop) (i : Item) (start end : ℕ)
      → date_condition event filters.city today db ≡ ok (some ws)
      → IsOffer filters event today db st_id shop i start end
      → (i.style_id == st_id && item_conditions filters (some ws) db.bookings i) ≡ true
  unfolding item_conditions
  offer_item st_id ws shop i start end found o =
      let parts = free_parts st_id shop.id start end i.size i o.free in
      let m =
        meets-date_condition db.bookings i event filters.city today db ws found
        ∙ any-true (serves db.bookings i event today) shop (published_shops filters.city db)
            (offer_shop st_id shop i start end o) (offer_serves st_id shop i start end o) in
      rw (parts.1, parts.3, o.size, m) refl

  matching :
      (ws : List Window) (st : Style)
      → date_condition event filters.city today db ≡ ok (some ws)
      → In st db.styles
      → is_match filters (some ws) db st ≡ true
      → IsRentable filters event today db st
  unfolding is_match
  matching ws st found stored t =
      let offered =
        (λ (i : Item). i.style_id == st.id && item_conditions filters (some ws) db.bookings i) in
      let has_offer : any offered db.items ≡ true = ground (arith, t) in
      let (i, held, o) = any-witness offered db.items has_offer in
      record {
        stored = stored;
        listed = ground (arith, t);
        category = ground (arith, t);
        budget = ground (arith, t);
        offer = item-IsOffer st.id ws i found held o;
      }

  matched :
      (ws : List Window) (st : Style)
      → date_condition event filters.city today db ≡ ok (some ws)
      → IsRentable filters event today db st
      → is_match filters (some ws) db st ≡ true
  unfolding is_match
  matched ws st found r =
      let (shop, i, start, end, o) = r.offer in
      let has_offer =
        any-true
          (λ (j : Item). j.style_id == st.id && item_conditions filters (some ws) db.bookings j) i
          db.items ((free_parts st.id shop.id start end i.size i o.free).0)
          (offer_item st.id ws shop i start end found o) in
      rw (r.listed, r.category, r.budget, has_offer) refl

  -- Where some shop can serve the date, the styles that the search counts are exactly those that are
  -- listed, within the filters, and have an item of the wanted size free for the days that the rules of
  -- its shop ask for.
  pub matches_iff :
      (ws : List Window) (st : Style)
      → date_condition event filters.city today db ≡ ok (some ws)
      → In st (matches filters (some ws) db) ↔ IsRentable filters event today db st
  unfolding matches
  matches_iff ws st found = (
    λ h.
        let (stored, t) = In-where (is_match filters (some ws) db) st db.styles (
          In-sort_by (order filters.sort) st (where_ (is_match filters (some ws) db) db.styles)
            h) in
        matching ws st found stored t,
    λ r.
        sort_by-In (order filters.sort) st (where_ (is_match filters (some ws) db) db.styles)
          (where-In (is_match filters (some ws) db) st db.styles r.stored (matched ws st found r)),
  )
