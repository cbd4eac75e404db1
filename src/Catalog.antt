-- ===== src/Catalog.antt =====
-- catalog.py: new styles with their codes, and new items.
pub mod Numbers
pub mod Stock
use twirl.Prelude.{
  ℕ, zero, suc, ◌+◌, Bool, true, false, ◌&&◌, ◌||◌, Option, none, some, List, [], ◌∷◌, ◌++◌, Text,
  codes, show, text_eq, strip, is_empty, length, where_, any, find, ltb, leb, ◌==◌, if◌then◌else◌,
}
use twirl.Exec.{Exec, Result, ok, err, and_then, pure, raise, lift, ◌>>=◌}
use twirl.Errors.{Error, value_error}
use twirl.Host.{Host}
use twirl.Model.{
  Db, Style, Item, ItemStatus, Occasion, ColourFamily, DressLength, occasion_value, colour_value,
  length_value,
}
use twirl.Model.{
  wedding, matura, henna_night, black, white, red, pink, blue, green, gold, silver, beige, purple,
  multi, mini, midi, maxi,
}
use twirl.Sizes.{normalize_size}
use twirl.Codes.{new_item_code}

abbrev pub max_items_per_add : ℕ
max_items_per_add = 20

-- f"{n:03d}"
unfoldable pub style_code : ℕ → Text
style_code n =
    let text = show n in if ltb n 10 then 48 ∷ 48 ∷ text else if ltb n 100 then 48 ∷ text else text

-- `select(exists().where(...))` of `next_style_code`
abbrev pub style_code_taken : ℕ → Text → List Style → Bool
style_code_taken shop_id code styles =
    any (λ st. st.shop_id == shop_id && text_eq st.code code) styles

-- The loop of `next_style_code` after `n`, over the rounds that it has left.
unfoldable pub try_style_codes : (shop_id n rounds : ℕ) → List Style → Text
try_style_codes shop_id n zero styles = style_code (n + 1)
try_style_codes shop_id n (suc rounds) styles =
    let again = try_style_codes shop_id (n + 1) rounds styles in
    if style_code_taken shop_id (style_code (n + 1)) styles then again else style_code (n + 1)

abbrev pub style_count : ℕ → List Style → ℕ
style_count shop_id styles = length (where_ (λ st. st.shop_id == shop_id) styles)

-- As many rounds as the shop has styles: after them a code is free.
unfoldable pub next_style_code : ℕ → Db → Text
unfolding try_style_codes
next_style_code shop_id db =
    let count = style_count shop_id db.styles in try_style_codes shop_id count count db.styles

-- `Enum(text)`: the member with the value, or ValueError
abbrev pub with_value : {A : Type 0} → (A → Text) → List A → Text → Result Error A
with_value value members text = elim (find (λ a. text_eq (value a) text) members) [
  | none ↦ err value_error
  | some a ↦ ok a
]

-- `Enum(text).value if text else None`
abbrev pub with_value_if :
    {A : Type 0} → (A → Text) → List A → Option Text → Result Error (Option A)
with_value_if value members none = ok none
with_value_if value members (some text) =
    if is_empty text then ok none else and_then (with_value value members text) (λ a. ok (some a))

abbrev pub occasions : List Occasion
occasions = wedding ∷ Occasion.engagement ∷ matura ∷ henna_night ∷ Occasion.evening ∷ []

abbrev pub colour_families : List ColourFamily
colour_families =
    black ∷ white ∷ red ∷ pink ∷ blue ∷ green ∷ gold ∷ silver ∷ beige ∷ purple ∷ multi ∷ []

abbrev pub dress_lengths : List DressLength
dress_lengths = mini ∷ midi ∷ maxi ∷ []

unfoldable pub tags_of : List Text → Result Error (List Occasion)
tags_of [] = ok []
tags_of (t ∷ ts) =
    and_then (with_value occasion_value occasions t)
      λ tag. and_then (tags_of ts) λ tags. ok (tag ∷ tags)

-- the arguments of `create_style`
pub record NewStyle : Type 0 where
  pub name : Text
  pub price_cents : ℕ
  pub description : Text
  pub occasion_tags : List Text
  pub colour_family : Option Text
  pub length : Option Text
  pub stretch : Bool
  pub adjustable_back : Bool
  pub published : Bool

-- the row of the arguments, once their texts are members of the enumerations
abbrev pub style_row :
    (shop_id : ℕ) → NewStyle → List Occasion → Option ColourFamily → Option DressLength → Db → Style
style_row shop_id new tags colour dress_length db = record {
  id = db.style_seq;
  shop_id = shop_id;
  code = next_style_code shop_id db;
  name = strip new.name;
  description = strip new.description;
  price_cents = new.price_cents;
  occasion_tags = tags;
  category = none;
  internal_ref = none;
  colour_family = colour;
  length = dress_length;
  stretch = new.stretch;
  adjustable_back = new.adjustable_back;
  published = new.published;
  deleted_at = none;
  created_at = db.now;
}

-- session.add(style); session.flush()
unfoldable pub insert_style : (Db → Style) → Exec Db Error Style
unfolding pure
insert_style row db =
    pure (row db) (record db { styles = db.styles ++ row db ∷ []; style_seq = suc db.style_seq })

unfoldable pub create_style : (shop_id : ℕ) → NewStyle → Exec Db Error Style
unfolding insert_style lift tags_of
create_style shop_id new = do
  tags ← lift (tags_of new.occasion_tags)
  colour ← lift (with_value_if colour_value colour_families new.colour_family)
  dress_length ← lift (with_value_if length_value dress_lengths new.length)
  insert_style (style_row shop_id new tags colour dress_length)

abbrev pub item_row : Style → Text → Text → ℕ → Item
item_row style size code id = record {
  id = id;
  shop_id = style.shop_id;
  style_id = style.id;
  code = code;
  size = size;
  status = ItemStatus.active;
  notes = [];
}

unfoldable pub insert_item : Style → Text → Text → Exec Db Error Item
unfolding pure
insert_item style size code db =
    let row = item_row style size code db.item_seq in
    pure row (record db { items = db.items ++ row ∷ []; item_seq = suc db.item_seq })

unfoldable pub add_each : Host → Style → Text → ℕ → Exec Db Error (List Item)
add_each host style size zero = pure []
add_each host style size (suc quantity) = do
  code ← new_item_code host style.shop_id
  item ← insert_item style size code
  items ← add_each host style size quantity
  pure (item ∷ items)

unfoldable pub add_items : Host → Style → Text → ℕ → Exec Db Error (List Item)
add_items host style size quantity =
    let sized = lift (normalize_size host size) >>= (λ s. add_each host style s quantity) in
    if leb 1 quantity && leb quantity max_items_per_add then sized else raise value_error
