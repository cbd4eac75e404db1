-- ===== src/Search/Found.antt =====
-- search.py: `search`
use twirl.Prelude.{
  ◌<◌, leb, Bool-cases, In-map, length-map, ℕ, ◌≤◌, ◌-◌, ◌*◌, min, max, ◌≡◌, refl, sym, subst, ap,
  ◌∙◌, ◌⊎◌, inl, inr, false, Option, none, some, List, map, length, Option-cases, In, arith,
}
use twirl.Exec.{ok, Result-cases}
use twirl.Host.{Host}
use twirl.Model.{Db, Style, Item}
use twirl.Search.Days.{Window, date_condition}
use twirl.Search.Pages.{
  Filters, Card, Results, search, search_within, is_match, item_conditions, matches, page_count,
  page_of, cards_for, page_size, unreachable_date,
}
use twirl.Search.Rentable.{IsRentable, matches_iff}
use twirl.Search.Paging.{page_of-covers, In-page_of, length-page_of}
use twirl.Search.Cards.{HasKey, cards_for-total, cards_for-styles}

-- A page of the search: at most as many cards as fit, and a number among those of the pages that the
-- styles need.
pub record IsPage (r : Results) : Type 0 where
  pub cards : length r.cards ≤ page_size
  pub low : 1 ≤ r.page
  pub high : r.page ≤ r.pages
  pub enough : r.total ≤ r.pages * page_size
  pub tight : (r.pages ≡ 1) ⊎ ((r.pages - 1) * page_size < r.total)

pages_tight :
    (total pages : ℕ) → pages ≡ page_count total → (pages ≡ 1) ⊎ ((pages - 1) * page_size < total)
unfolding page_count
pages_tight total pages e = elim (Bool-cases (leb pages 1)) [
  | inl one ↦ inl (ground (arith, e, one))
  | inr more ↦ inr (ground (arith, e, more))
]

module _ (host : Host) where
  -- The cards are those of the page that is shown.
  within_parts :
      (filters : Filters) (dates : Option (List Window)) (db : Db) (r : Results)
      → search_within host filters dates db ≡ ok r
      → (cards_for host dates db (page_of r.page (matches filters dates db)) ≡ ok r.cards)
        × (r.total ≡ length (matches filters dates db))
        × (r.pages ≡ page_count r.total)
        × (r.page ≡ min (max 1 filters.page) r.pages)
  unfolding search_within
  within_parts filters dates db r h =
      let rows = matches filters dates db in
      let page = min (max 1 filters.page) (page_count (length rows)) in
      elim (Result-cases (cards_for host dates db (page_of page rows))) [
        | inl (cs, e) ↦ ground (arith, e, h)
        | inr (x, e) ↦ absurd (ground (arith, e, h))
      ]

  within-total :
      (filters : Filters) (dates : Option (List Window)) (db : Db)
      → ((i : Item) → In i db.items → HasKey host i.size)
      → (r : Results) × (search_within host filters dates db ≡ ok r)
  unfolding search_within
  within-total filters dates db h =
      let rows = matches filters dates db in
      let page = min (max 1 filters.page) (page_count (length rows)) in
      let (cs, e) = cards_for-total host dates db (page_of page rows) h in
      (
        record {
          cards = cs;
          total = length rows;
          page = page;
          pages = page_count (length rows);
          date_unreachable = false;
        },
        rw e refl,
      )

  -- What a search for a date says where it returns results.
  dated :
      (filters : Filters) (event today : ℕ) (db : Db) (r : Results)
      → filters.event_date ≡ some event
      → search host filters today db ≡ ok r
      → (r ≡ unreachable_date)
        ⊎ ((ws : List Window) × (date_condition event filters.city today db ≡ ok (some ws))
            × (search_within host filters (some ws) db ≡ ok r))
  unfolding search
  dated filters event today db r e h =
      let asked = rw e at h in
      elim (Result-cases (date_condition event filters.city today db)) [
        | inl (none, f) ↦ inl (ground (arith, f, asked))
        | inl (some ws, f) ↦ inr (ws, f, ground (arith, f, asked))
        | inr (x, f) ↦ absurd (ground (arith, f, asked))
      ]

  -- The page asked for has no part in what matches.
  matches-page :
      (filters : Filters) (dates : Option (List Window)) (db : Db) (page : ℕ)
      → matches (record filters { page = page }) dates db ≡ matches filters dates db
  unfolding matches is_match item_conditions
  matches-page filters dates db page = refl

  within_shown :
      (filters : Filters) (dates : Option (List Window)) (db : Db) (r : Results) (card : Card)
      → search_within host filters dates db ≡ ok r
      → In card r.cards
      → In card.style (matches filters dates db)
  within_shown filters dates db r card w i =
      let rows = matches filters dates db in
      let styles =
        cards_for-styles host dates db (page_of r.page rows) r.cards
          ((within_parts filters dates db r w).0) in
      In-page_of card.style r.page rows (
        subst (λ (l : List Style). In card.style l) styles
          (In-map (λ (c : Card). c.style) card r.cards i))

  within-IsPage :
      (filters : Filters) (dates : Option (List Window)) (db : Db) (r : Results)
      → search_within host filters dates db ≡ ok r
      → IsPage r
  unfolding page_count
  within-IsPage filters dates db r w =
      let (cards, total, pages, page) = within_parts filters dates db r w in
      let rows = page_of r.page (matches filters dates db) in
      let count : length r.cards ≡ length rows =
        sym (length-map (λ (c : Card). c.style) r.cards)
        ∙ ap length (cards_for-styles host dates db rows r.cards cards) in
      record {
        cards = omega (arith, count, length-page_of r.page (matches filters dates db));
        low = omega (arith, page, pages);
        high = omega (arith, page, pages);
        enough = omega (arith, pages);
        tight = pages_tight r.total r.pages pages;
      }

  -- Every dress that a search for an event date shows can be rented for that date: it is listed and
  -- within the filters, and a published shop that can serve the date has an item of it, of the wanted
  -- size, that is free for the whole window.
  pub search-IsRentable :
      (filters : Filters) (event today : ℕ) (db : Db) (r : Results) (card : Card)
      → filters.event_date ≡ some event
      → search host filters today db ≡ ok r
      → In card r.cards
      → IsRentable filters event today db card.style
  search-IsRentable filters event today db r card e h i =
      elim (dated filters event today db r e h) [
        | inl u ↦ elim (subst (λ (x : Results). In card x.cards) u i) [ ]
        | inr (ws, found, w) ↦
            (matches_iff filters event today db ws card.style found).0
              (within_shown filters (some ws) db r card w i)
      ]

  -- Every dress that can be rented for an event date is on a page of the search for it, and the search
  -- returns that page, where the windows of the shops that serve the date are worked out without an error
  -- and every stored size has a sort key.
  pub search_complete :
      (filters : Filters) (event today : ℕ) (db : Db) (ws : List Window) (st : Style)
      → filters.event_date ≡ some event
      → date_condition event filters.city today db ≡ ok (some ws)
      → ((i : Item) → In i db.items → HasKey host i.size)
      → IsRentable filters event today db st
      → (page : ℕ) × (r : Results) × (search host (record filters { page = page }) today db ≡ ok r)
        × (r.page ≡ page)
        × In st (map (λ c. c.style) r.cards)
  unfolding search within-total matches
  search_complete filters event today db ws st e found keys rentable =
      let rows = matches filters (some ws) db in
      let (page, low, high, on) =
        page_of-covers st rows ((matches_iff filters event today db ws st found).1 rentable) in
      let asked = record filters { page = page } in
      let (r, w) = within-total asked (some ws) db keys in
      let parts = within_parts asked (some ws) db r w in
      let (cards, total, pages, shown) = parts in
      let same = matches-page filters (some ws) db page in
      let at : r.page ≡ page = omega (arith, shown, pages, total, ap length same, low, high) in
      let styles =
        cards_for-styles host (some ws) db (page_of r.page (matches asked (some ws) db)) r.cards
          cards in
      (
        page,
        r,
        rw (e, found) w,
        at,
        subst (λ (l : List Style). In st l) (sym styles) (rw (at, same) on),
      )

  -- A search returns at most twenty-four cards, a page from 1 to the number of pages, and just as many
  -- pages as the total that it reports needs, at least one.
  pub search-IsPage :
      (filters : Filters) (today : ℕ) (db : Db) (r : Results)
      → search host filters today db ≡ ok r
      → IsPage r
  unfolding search search_within matches
  search-IsPage filters today db r h = elim (Option-cases filters.event_date) [
    | inl e ↦ within-IsPage filters none db r (rw e at h)
    | inr (event, e) ↦ elim (dated filters event today db r e h) [
      | inl u ↦ rw u (record {
        cards = omega arith;
        low = omega arith;
        high = omega arith;
        enough = omega arith;
        tight = inl refl;
      })
      | inr (ws, found, w) ↦ within-IsPage filters (some ws) db r w
    ]
  ]
