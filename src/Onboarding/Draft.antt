-- ===== src/Onboarding/Draft.antt =====
-- onboarding.py: the draft of the first listing, `get_or_create_draft_style`, `set_dress` and `month_grid`.
use twirl.Prelude.{
  ℕ, zero, suc, ◌+◌, ◌-◌, Bool, true, false, not, ◌&&◌, Option, none, some, List, [], ◌∷◌, ◌++◌,
  map, Text, codes, strip, is_empty, take, first, find, where_, any, sort_by, leb, ◌==◌,
  if◌then◌else◌, text_eq,
}
use twirl.Exec.{Exec, pure, raise, gets, ◌>>=◌, ◌>>◌}
use twirl.Errors.{Error, OnboardingCode, onboarding_error}
use twirl.Host.{Host}
use twirl.Model.{
  Db, Style, Item, ItemStatus, ShopKind, StyleCategory, category_value, is_individual, evening,
  bridal, mens_suit, traditional,
}
use twirl.Dates.{weekday}
use twirl.Catalog.{next_style_code, insert_style, add_items}
use twirl.Onboarding.{active_items, member, from_keys, dress_errors, write_style}
use twirl.Staff.{load_style}

abbrev pub draft_style_name : Text
draft_style_name = codes "Veshje e re"

-- STYLE_NAMES
abbrev pub style_name : StyleCategory → Text
style_name evening = codes "Fustan mbrëmjeje"
style_name bridal = codes "Fustan nusërie"
style_name StyleCategory.engagement = codes "Fustan fejese"
style_name mens_suit = codes "Kostum burrash"
style_name traditional = codes "Veshje tradicionale"

abbrev pub is_unfinished : ℕ → Style → Bool
is_unfinished shop_id st =
    st.shop_id == shop_id && not st.published && elim st.deleted_at [ none ↦ true | some t ↦ false ]

-- the style that the session names, where it is an unfinished one of the shop
abbrev pub named_draft : ℕ → Option ℕ → List Style → Option Style
named_draft shop_id none styles = none
named_draft shop_id (some id) styles =
    first (where_ (is_unfinished shop_id) (where_ (λ (st : Style). st.id == id) styles))

-- ORDER BY id DESC LIMIT 1
abbrev pub newest_draft : ℕ → List Style → Option Style
newest_draft shop_id styles =
    first (sort_by (λ (a b : Style). leb b.id a.id) (where_ (is_unfinished shop_id) styles))

abbrev pub draft_row : ℕ → Db → Style
draft_row shop_id db = record {
  id = db.style_seq;
  shop_id = shop_id;
  code = next_style_code shop_id db;
  name = draft_style_name;
  description = [];
  price_cents = 0;
  occasion_tags = [];
  category = none;
  internal_ref = none;
  colour_family = none;
  length = none;
  stretch = false;
  adjustable_back = false;
  published = false;
  deleted_at = none;
  created_at = db.now;
}

abbrev pub or_draft : ℕ → Option Style → Exec Db Error Style
or_draft shop_id (some st) = pure st
or_draft shop_id none = insert_style (draft_row shop_id)

abbrev pub or_newest : Option Style → Option Style → Option Style
or_newest (some st) newest = some st
or_newest none newest = newest

unfoldable pub get_or_create_draft_style : (shop_id : ℕ) → Option ℕ → Exec Db Error Style
get_or_create_draft_style shop_id style_id = do
  found ←
      gets
        (λ db. or_newest (named_draft shop_id style_id db.styles) (newest_draft shop_id db.styles))
  or_draft shop_id found

-- the arguments of `set_dress`
pub record Dress : Type 0 where
  pub kind : ShopKind
  pub category : Text
  pub sizes : List Text
  pub description : Text
  pub internal_ref : Text

abbrev pub categories : List StyleCategory
categories = evening ∷ bridal ∷ StyleCategory.engagement ∷ mens_suit ∷ traditional ∷ []

-- StyleCategory(text), which the checks have let through
abbrev pub category_of : Text → Option StyleCategory
category_of text = find (λ c. text_eq (category_value c) text) categories

-- `text or None`
abbrev pub unless_empty : Text → Option Text
unless_empty text = if is_empty text then none else some text

abbrev pub named_by : Option StyleCategory → Text → Text
named_by none name = name
named_by (some c) name = style_name c

abbrev pub dressed : Style → Dress → Style
dressed st d = record st {
  category = category_of d.category;
  name = named_by (category_of d.category) st.name;
  description = take 2000 (strip d.description);
  internal_ref =
      if is_individual d.kind then none else unless_empty (take 20 (strip d.internal_ref));
}

-- `current`: of the active items, the last one of each size
abbrev pub last_of_size : Item → List Item → Bool
last_of_size i items = not (any (λ j. text_eq j.size i.size) items)

unfoldable pub current_items : List Item → List Item
current_items [] = []
current_items (i ∷ items) =
    let rest = current_items items in if last_of_size i items then i ∷ rest else rest

-- The items of `current` whose size is not chosen are retired.
abbrev pub retire : List Item → List Text → Item → Item
retire current chosen i =
    if any (λ j. j.id == i.id && not (member j.size chosen)) current
    then record i { status = ItemStatus.retired }
    else i

unfoldable pub retire_items : List Item → List Text → Exec Db Error (Unit {0})
unfolding pure
retire_items current chosen db =
    pure tt (record db { items = map (retire current chosen) db.items })

unfoldable pub add_sizes : Host → Style → List Item → List Text → Exec Db Error (Unit {0})
add_sizes host st current [] = pure tt
add_sizes host st current (size ∷ sizes) =
    let rest = add_sizes host st current sizes in
    let added = add_items host st size 1 >>= (λ items. rest) in
    if any (λ i. text_eq i.size size) current then rest else added

-- what follows the checks
unfoldable pub write_dress : Host → Style → Dress → Exec Db Error (Unit {0})
write_dress host st d = do
  let chosen = from_keys d.sizes
  write_style (dressed st d)
  active ← gets (active_items st.id)
  let current = current_items active
  retire_items current chosen
  add_sizes host (dressed st d) current chosen

abbrev pub unless_errors : List OnboardingCode → Exec Db Error (Unit {0}) → Exec Db Error (Unit {0})
unless_errors [] m = m
unless_errors (code ∷ rest) m = raise (onboarding_error code)

unfoldable pub set_dress : Host → (style_id : ℕ) → Dress → Exec Db Error (Unit {0})
set_dress host style_id d = do
  st ← load_style style_id
  errors ← gets (dress_errors style_id d.kind d.category d.sizes)
  unless_errors errors (write_dress host st d)

-- the days from the one after `day` on
abbrev pub days_after : ℕ → ℕ → List (Option ℕ)
days_after day zero = []
days_after day (suc n) = some (day + 1) ∷ days_after (day + 1) n

abbrev pub blanks : ℕ → List (Option ℕ)
blanks zero = []
blanks (suc n) = none ∷ blanks n

-- `month_grid`, from the ordinal of the first day and the days that the month has
unfoldable pub month_grid : (first_day days_in_month : ℕ) → List (Option ℕ)
month_grid first_day days_in_month =
    blanks (weekday first_day) ++ days_after (first_day - 1) days_in_month
