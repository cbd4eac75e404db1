-- ===== src/Onboarding.antt =====
-- onboarding.py: the checks on a new listing, its price and its busy dates, and its publication.
pub mod Ranges
pub mod Listing
pub mod Blocks
pub mod Dress
pub mod Slug
pub mod Provider
pub mod Profile
pub mod Draft
use twirl.Prelude.{
  ℕ, suc, ◌+◌, ◌*◌, Bool, true, false, not, ◌&&◌, ◌||◌, Option, none, some, List, [], ◌∷◌, ◌++◌,
  map, Text, codes, text_eq, length, any, all, find, where_, sort_by, ltb, leb, ◌==◌, if◌then◌else◌,
}
use twirl.Exec.{Exec, pure, raise, gets, ◌>>=◌, ◌>>◌}
use twirl.Errors.{
  Error, OnboardingCode, onboarding_error, photos, category, sizes, price, terms, incomplete,
}
use twirl.Host.{Host}
use twirl.Model.{
  Db, Booking, Payload, Actor, Item, Shop, ShopKind, ShopStatus, Style, StyleImage, StyleCategory,
  User, UserKind, confirmed, same_status, is_block, is_in_use, shop_kind_value, is_draft,
  is_individual, provider_published_admin,
}
use twirl.Session.{one}
use twirl.Notify.{notify_admin}
use twirl.Staff.{load_shop, load_style, cancel_block, create_block}

abbrev pub terms_version : Text
terms_version = codes "2026-09-25"

abbrev pub min_photos : ℕ
min_photos = 3

abbrev pub price_min_eur : ℕ
price_min_eur = 5

abbrev pub price_max_eur : ℕ
price_max_eur = 2000

abbrev pub all_sizes : List Text
all_sizes =
    codes "34"
    ∷ codes "36"
    ∷ codes "38"
    ∷ codes "40"
    ∷ codes "42"
    ∷ codes "44"
    ∷ codes "46"
    ∷ codes "CUSTOM"
    ∷ []

abbrev pub block_reason : Text
block_reason = codes "onboarding"

unfoldable pub photo_count : ℕ → Db → ℕ
photo_count style_id db =
    length (where_ (λ (i : StyleImage). i.style_id == style_id) db.style_images)

-- `style.items` comes in the order of the ids.
unfoldable pub active_items : ℕ → Db → List Item
active_items style_id db =
    where_ (λ (i : Item). is_in_use i.status)
      (sort_by (λ (i j : Item). leb i.id j.id)
        (where_ (λ (i : Item). i.style_id == style_id) db.items))

-- {c.value for c in StyleCategory}
abbrev pub category_values : List Text
category_values =
    codes "evening"
    ∷ codes "bridal"
    ∷ codes "engagement"
    ∷ codes "mens_suit"
    ∷ codes "traditional"
    ∷ []

-- `x in xs`
abbrev pub member : Text → List Text → Bool
member t ts = any (λ s. text_eq s t) ts

-- list(dict.fromkeys(sizes)): each text where it first stands
unfoldable pub without : Text → List Text → List Text
without t ts = where_ (λ s. not (text_eq s t)) ts

unfoldable pub from_keys : List Text → List Text
from_keys [] = []
from_keys (t ∷ ts) = t ∷ without t (from_keys ts)

abbrev pub when : Bool → OnboardingCode → List OnboardingCode
when true code = code ∷ []
when false code = []

abbrev pub sizes_wrong : ShopKind → List Text → Bool
sizes_wrong kind [] = true
sizes_wrong kind (t ∷ ts) =
    any (λ s. not (member s all_sizes)) (t ∷ ts)
    || (is_individual kind && not (length (t ∷ ts) == 1))

unfoldable pub dress_errors : ℕ → ShopKind → Text → List Text → Db → List OnboardingCode
dress_errors style_id kind chosen_category chosen_sizes db =
    when (ltb (photo_count style_id db) min_photos) photos
    ++ when (not (member chosen_category category_values)) category
    ++ when (sizes_wrong kind (from_keys chosen_sizes)) sizes

-- sorted(set(days))
unfoldable pub set_insert : ℕ → List ℕ → List ℕ
set_insert d [] = d ∷ []
set_insert d (x ∷ xs) =
    let rest = set_insert d xs in
    if ltb d x then d ∷ x ∷ xs else if d == x then x ∷ xs else x ∷ rest

unfoldable pub sorted_set : List ℕ → List ℕ
unfolding set_insert
sorted_set [] = []
sorted_set (d ∷ days) = set_insert d (sorted_set days)

-- The loop of `contiguous_ranges`, with the last range of the list in hand.
unfoldable pub ranges_from : (start last : ℕ) → List ℕ → List (ℕ × ℕ)
ranges_from start last [] = (start, last) ∷ []
ranges_from start last (day ∷ days) =
    let joined = ranges_from start day days in
    let apart = ranges_from day day days in
    if day == last + 1 then joined else (start, last) ∷ apart

unfoldable pub ranges_of : List ℕ → List (ℕ × ℕ)
unfolding ranges_from
ranges_of [] = []
ranges_of (day ∷ days) = ranges_from day day days

unfoldable pub contiguous_ranges : List ℕ → List (ℕ × ℕ)
contiguous_ranges days = ranges_of (sorted_set days)

-- `_onboarding_blocks`
unfoldable pub onboarding_blocks : ℕ → Db → List Booking
onboarding_blocks item_id db =
    where_
      (λ b.
        b.item_id == item_id
        && is_block b.kind
        && same_status b.status confirmed
        && text_eq b.reason block_reason)
      db.bookings

abbrev pub put_style : Style → List Style → List Style
put_style s styles = map (λ (t : Style). if t.id == s.id then s else t) styles

abbrev pub put_shop : Shop → List Shop → List Shop
put_shop s shops = map (λ (t : Shop). if t.id == s.id then s else t) shops

unfoldable pub write_style : Style → Exec Db Error (Unit {0})
unfolding pure
write_style s db = pure tt (record db { styles = put_style s db.styles })

unfoldable pub write_shop : Shop → Exec Db Error (Unit {0})
unfolding pure
write_shop s db = pure tt (record db { shops = put_shop s db.shops })

-- The loops of `set_price_and_dates`.
unfoldable pub cancel_blocks : List Booking → Actor → Exec Db Error (Unit {0})
cancel_blocks [] actor = pure tt
cancel_blocks (b ∷ blocks) actor = cancel_block b.id actor >> cancel_blocks blocks actor

unfoldable pub create_blocks : Host → ℕ → List (ℕ × ℕ) → Actor → Exec Db Error (Unit {0})
create_blocks host item_id [] actor = pure tt
create_blocks host item_id ((start, end) ∷ ranges) actor =
    create_block host item_id start end block_reason actor
    >> create_blocks host item_id ranges actor

unfoldable pub reblock_all : Host → List Item → List (ℕ × ℕ) → Actor → Exec Db Error (Unit {0})
reblock_all host [] ranges actor = pure tt
reblock_all host (item ∷ items) ranges actor = do
  blocks ← gets (onboarding_blocks item.id)
  cancel_blocks blocks actor
  create_blocks host item.id ranges actor
  reblock_all host items ranges actor

-- What follows the check of the price.
unfoldable pub reprice : Host → Style → ℕ → List (ℕ × ℕ) → Actor → Exec Db Error (Unit {0})
reprice host style price_eur ranges actor = do
  write_style (record style { price_cents = price_eur * 100 })
  items ← gets (active_items style.id)
  reblock_all host items ranges actor

unfoldable pub set_price_and_dates :
    Host → (style_id price_eur : ℕ) → List ℕ → Actor → (today : ℕ) → Exec Db Error (Unit {0})
set_price_and_dates host style_id price_eur blocked actor today = do
  style ← load_style style_id
  if leb price_min_eur price_eur && leb price_eur price_max_eur
      then reprice host style price_eur (contiguous_ranges (where_ (λ day. leb today day) blocked))
          actor
      else raise (onboarding_error price)

abbrev pub has_none : {A : Type 0} → List A → Bool
has_none [] = true
has_none (x ∷ xs) = false

abbrev pub is_missing : {A : Type 0} → Option A → Bool
is_missing none = true
is_missing (some a) = false

-- The condition of `publish` for "incomplete".
unfoldable pub is_incomplete : Style → Db → Bool
is_incomplete style db =
    is_missing style.category
    || has_none (active_items style.id db)
    || style.price_cents == 0
    || ltb (photo_count style.id db) min_photos

abbrev pub published_shop : Shop → ℕ → Shop
published_shop shop now = record shop {
  status = if is_draft shop.status then ShopStatus.published else shop.status;
  terms_accepted_at = some now;
  terms_version = some terms_version;
  onboarding_completed_at = elim shop.onboarding_completed_at [
    | none ↦ some now
    | some at ↦ some at
  ];
}

abbrev pub published_payload : Shop → Style → Payload
published_payload shop style =
    (codes "shop_name", shop.name)
    ∷ (codes "kind", shop_kind_value shop.kind)
    ∷ (codes "city", shop.city)
    ∷ (codes "style_name", style.name)
    ∷ (codes "path", codes "/" ++ shop.slug ++ codes "/" ++ style.code)
    ∷ []

-- What follows the checks of `publish`.
unfoldable pub put_online : Shop → Style → ℕ → Exec Db Error (Unit {0})
put_online shop style now = do
  write_style (record style { published = true })
  write_shop (published_shop shop now)
  notify_admin provider_published_admin (published_payload shop style)

unfoldable pub publish :
    (shop_id style_id : ℕ) → (accepted_terms : Bool) → (now : ℕ) → Exec Db Error (Unit {0})
publish shop_id style_id accepted_terms now = do
  shop ← load_shop shop_id
  style ← load_style style_id
  missing ← gets (is_incomplete style)
  if not accepted_terms
      then raise (onboarding_error terms)
      else if missing
      then raise (onboarding_error incomplete)
      else put_online shop style now
