-- ===== src/Search/Cards.antt =====
-- search.py: the cards of `search`
use twirl.Prelude.{
  map-In, ◌==◌, ◌&&◌, ◌≡◌, refl, sym, subst, inl, inr, Option, List, [], ◌∷◌, map, Text, where_, In,
  In-where, arith, sort_by,
}
use twirl.Exec.{ok, Result-cases}
use twirl.Host.{Host}
use twirl.Model.{Db, Style, Item}
use twirl.Sizes.{SortKey, size_sort_key, sort_keys, sorted_sizes, distinct, key_leb}
use twirl.Search.Days.{Window}
use twirl.Search.Pages.{
  Card, card_for, cards_for, sizes_of, item_conditions, no_filters, shop_of_style,
}

-- `size_sort_key` raises nothing for the size.
abbrev pub HasKey : Host → Text → Type 0
HasKey host s = (k : SortKey) × (size_sort_key host s ≡ ok k)

pub In-distinct : (s : Text) (ss : List Text) → In s (distinct ss) → In s ss
unfolding distinct
In-distinct s [] h = h
In-distinct s (x ∷ ss) h = ground (arith, In-distinct s ss)

module _ (host : Host) where
  sort_keys-total :
      (ss : List Text)
      → ((s : Text) → In s ss → HasKey host s)
      → (ks : List SortKey) × (sort_keys host ss ≡ ok ks)
  unfolding sort_keys
  sort_keys-total [] h = ([], refl)
  sort_keys-total (s ∷ ss) h =
      let (k, e) = h s (inl refl) in
      let (ks, f) = sort_keys-total ss (λ x i. h x (inr i)) in (k ∷ ks, rw (e, f) refl)

  sizes_of-keys :
      (dates : Option (List Window)) (db : Db) (st : Style)
      → ((i : Item) → In i db.items → HasKey host i.size)
      → (s : Text) → In s (distinct (sizes_of dates db st))
      → HasKey host s
  unfolding sizes_of
  sizes_of-keys dates db st h s i =
      let kept =
        (λ (j : Item). j.style_id == st.id && item_conditions no_filters dates db.bookings j) in
      let (j, held, e) =
        map-In (λ (j : Item). j.size) s (where_ kept db.items)
          (In-distinct s (sizes_of dates db st) i) in
      subst (HasKey host) (sym e) (h j ((In-where kept j db.items held).0))

  card_for-total :
      (dates : Option (List Window)) (db : Db) (st : Style)
      → ((i : Item) → In i db.items → HasKey host i.size)
      → (c : Card) × (card_for host dates db st ≡ ok c)
  unfolding card_for sorted_sizes
  card_for-total dates db st h =
      let sizes = distinct (sizes_of dates db st) in
      let (ks, e) = sort_keys-total sizes (sizes_of-keys dates db st h) in
      (
        record {
          style = st;
          shop = shop_of_style st db.shops;
          sizes = map (λ k. k.size) (sort_by key_leb ks);
        },
        rw e refl,
      )

  pub cards_for-total :
      (dates : Option (List Window)) (db : Db) (sts : List Style)
      → ((i : Item) → In i db.items → HasKey host i.size)
      → (cards : List Card) × (cards_for host dates db sts ≡ ok cards)
  unfolding cards_for
  cards_for-total dates db [] h = ([], refl)
  cards_for-total dates db (st ∷ sts) h =
      let (c, e) = card_for-total dates db st h in
      let (cs, f) = cards_for-total dates db sts h in (c ∷ cs, rw (e, f) refl)

  card_for-style :
      (dates : Option (List Window)) (db : Db) (st : Style) (c : Card)
      → card_for host dates db st ≡ ok c
      → c.style ≡ st
  unfolding card_for
  card_for-style dates db st c h = ground arith

  -- The cards are those of the rows, in their order.
  pub cards_for-styles :
      (dates : Option (List Window)) (db : Db) (sts : List Style) (cards : List Card)
      → cards_for host dates db sts ≡ ok cards
      → map (λ c. c.style) cards ≡ sts
  unfolding cards_for
  cards_for-styles dates db [] cards h = ground arith
  cards_for-styles dates db (st ∷ sts) cards h = elim (Result-cases (card_for host dates db st)) [
    | inl (c, e) ↦ elim (Result-cases (cards_for host dates db sts)) [
      | inl (cs, f) ↦
          ground
            (arith, e, f, h, card_for-style dates db st c e, cards_for-styles dates db sts cs f)
      | inr (x, f) ↦ absurd (ground (arith, e, f, h))
    ]
    | inr (x, e) ↦ absurd (ground (arith, e, h))
  ]
