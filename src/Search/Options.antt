-- ===== src/Search/Options.antt =====
-- search.py: `size_options`, `city_options` and `shop_cards`.
use twirl.Prelude.{
  map-In, In-map, ℕ, ◌≡◌, ◌⊎◌, ◌↔◌, refl, sym, subst, ◌∙◌, &&-right, inl, inr, Bool, true, ◌&&◌,
  ◌||◌, Option, List, [], ◌∷◌, map, Text, any, where_, first, take, length, sort_by, ltb, ◌==◌, In,
  In-where, where-In, In-sort_by, sort_by-In, any-witness, any-true, arith, text_eq, eq_of_text_eq,
  Bool-cases,
}
use twirl.Exec.{Result}
use twirl.Errors.{Error}
use twirl.Host.{Host}
use twirl.Model.{Db, Shop, Style, Item, is_in_use, is_published}
use twirl.Sizes.{distinct, sorted_sizes}
use twirl.Search.Days.{wants}
use twirl.Search.Pages.{is_style_online, descending}
use twirl.Search.Cards.{In-distinct}

-- an item whose style and shop are online; the shop is the item's
unfoldable pub is_online_item : Db → Item → Bool
is_online_item db i =
    is_in_use i.status
    && any (λ st. st.id == i.style_id && is_style_online st) db.styles
    && any (λ s. s.id == i.shop_id && is_published s.status) db.shops

unfoldable pub size_options : Host → Db → Result Error (List Text)
size_options host db =
    sorted_sizes host (distinct (map (λ i. i.size) (where_ (is_online_item db) db.items)))

-- the rows of `_published_styles` for a shop
unfoldable pub styles_online : Db → Shop → List Style
styles_online db shop = where_ (λ st. st.shop_id == shop.id && is_style_online st) db.styles

unfoldable pub has_style : Db → Shop → Bool
has_style db shop =
    is_published shop.status && any (λ st. st.shop_id == shop.id && is_style_online st) db.styles

-- SELECT DISTINCT city of the listed styles, ORDER BY city
unfoldable pub city_options : Host → Db → List Text
city_options host db =
    sort_by host.collate (distinct (map (λ s. s.city) (where_ (has_style db) db.shops)))

pub record ShopCard : Type 0 where
  pub shop : Shop
  pub dresses : ℕ
  pub cover : Option Style

-- ORDER BY style.created_at DESC, style.id DESC, and DISTINCT ON the shop
unfoldable pub shop_card : Db → Shop → ShopCard
unfolding styles_online
shop_card db shop = record {
  shop = shop;
  dresses = length (styles_online db shop);
  cover = first (sort_by (descending (λ st. st.created_at)) (styles_online db shop));
}

-- ORDER BY count DESC, name
abbrev by_dresses : Host → ShopCard → ShopCard → Bool
by_dresses host a b =
    ltb b.dresses a.dresses || (a.dresses == b.dresses && host.collate a.shop.name b.shop.name)

unfoldable pub shop_cards : Host → Option Text → (limit : ℕ) → Db → List ShopCard
unfolding shop_card has_style
shop_cards host city limit db = take limit (
    sort_by (by_dresses host)
      (map (shop_card db) (where_ (λ s. has_style db s && wants city s.city) db.shops)))

distinct-In : (s : Text) (ss : List Text) → In s ss → In s (distinct ss)
unfolding distinct
distinct-In s [] h = h
distinct-In s (x ∷ ss) h = elim (Bool-cases (any (text_eq x) ss)) [
  | inl e ↦ rw e (distinct-In s ss (later h e))
  | inr e ↦ rw e (elim h [ inl same ↦ inl same | inr i ↦ inr (distinct-In s ss i) ])
]
  where
    later : (s ≡ x) ⊎ In s ss → any (text_eq x) ss ≡ true → In s ss
    later (inl same) e =
        let (y, i, t) = any-witness (text_eq x) ss e in
        subst (λ z. In z ss) (sym (same ∙ eq_of_text_eq x y t)) i
    later (inr i) e = i

-- A published shop in the city has a style online.
pub record IsCityOf (db : Db) (city : Text) : Type 0 where
  pub shop : Shop
  pub style : Style
  pub shop_stored : In shop db.shops
  pub style_stored : In style db.styles
  pub shop_online : is_published shop.status ≡ true
  pub style_online : is_style_online style ≡ true
  pub own : style.shop_id ≡ shop.id
  pub place : shop.city ≡ city

-- A city is offered exactly where some published shop in it has a style online.
pub city_options_iff :
    (host : Host) (db : Db) (city : Text) → In city (city_options host db) ↔ IsCityOf db city
unfolding city_options has_style
city_options_iff host db city = (
  λ h.
      let cities = map (λ (s : Shop). s.city) (where_ (has_style db) db.shops) in
      let (s, i, e) =
        map-In (λ (s : Shop). s.city) city (where_ (has_style db) db.shops)
          (In-distinct city cities (In-sort_by host.collate city (distinct cities) h)) in
      let (stored, t) = In-where (has_style db) s db.shops i in
      let (st, held, u) =
        any-witness (λ (x : Style). x.shop_id == s.id && is_style_online x) db.styles
          (&&-right (is_published s.status)
            (any (λ (x : Style). x.shop_id == s.id && is_style_online x) db.styles) t) in
      record {
        shop = s;
        style = st;
        shop_stored = stored;
        style_stored = held;
        shop_online = ground (arith, t);
        style_online = ground (arith, u);
        own = ground (arith, u);
        place = sym e;
      },
  λ c.
      let cities = map (λ (s : Shop). s.city) (where_ (has_style db) db.shops) in
      let has : any (λ (x : Style). x.shop_id == c.shop.id && is_style_online x) db.styles ≡ true =
        any-true (λ (x : Style). x.shop_id == c.shop.id && is_style_online x) c.style db.styles
          c.style_stored (rw (c.own, c.style_online) (ground arith)) in
      sort_by-In host.collate city (distinct cities) (
        distinct-In city cities (
          subst (λ z. In z cities) c.place
            (In-map (λ (s : Shop). s.city) c.shop (where_ (has_style db) db.shops)
              (where-In (has_style db) c.shop db.shops c.shop_stored
                (rw (c.shop_online, has) refl))))),
)
