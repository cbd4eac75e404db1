-- ===== src/Model/Catalog.antt =====
-- models/catalog.py
use twirl.Prelude.{ℕ, Bool, true, false, Option, List, Text, codes}

pub data Occasion : Type 0 where
  wedding engagement matura henna_night evening : Occasion

pub data StyleCategory : Type 0 where
  evening bridal engagement mens_suit traditional : StyleCategory

pub data ColourFamily : Type 0 where
  black white red pink blue green gold silver beige purple multi : ColourFamily

pub data DressLength : Type 0 where
  mini midi maxi : DressLength

pub data ItemStatus : Type 0 where
  active cleaning repair retired lost : ItemStatus

pub record Style : Type 0 where
  pub id : ℕ
  pub shop_id : ℕ
  pub code : Text
  pub name : Text
  pub description : Text
  pub price_cents : ℕ
  pub occasion_tags : List Occasion
  pub category : Option StyleCategory
  pub internal_ref : Option Text
  pub colour_family : Option ColourFamily
  pub length : Option DressLength
  pub stretch : Bool
  pub adjustable_back : Bool
  pub published : Bool
  pub deleted_at : Option ℕ
  pub created_at : ℕ

pub record StyleImage : Type 0 where
  pub id : ℕ
  pub style_id : ℕ
  pub position : ℕ
  pub storage_key : Text
  pub width : ℕ
  pub height : ℕ

pub record Item : Type 0 where
  pub id : ℕ
  pub shop_id : ℕ
  pub style_id : ℕ
  pub code : Text
  pub size : Text
  pub status : ItemStatus
  pub notes : Text

-- `Occasion(...).value`
abbrev pub occasion_value : Occasion → Text
occasion_value wedding = codes "wedding"
occasion_value engagement = codes "engagement"
occasion_value matura = codes "matura"
occasion_value henna_night = codes "henna_night"
occasion_value evening = codes "evening"

-- `ColourFamily(...).value`
abbrev pub colour_value : ColourFamily → Text
colour_value black = codes "black"
colour_value white = codes "white"
colour_value red = codes "red"
colour_value pink = codes "pink"
colour_value blue = codes "blue"
colour_value green = codes "green"
colour_value gold = codes "gold"
colour_value silver = codes "silver"
colour_value beige = codes "beige"
colour_value purple = codes "purple"
colour_value multi = codes "multi"

-- `DressLength(...).value`
abbrev pub length_value : DressLength → Text
length_value mini = codes "mini"
length_value midi = codes "midi"
length_value maxi = codes "maxi"

-- `StyleCategory(...).value`
abbrev pub category_value : StyleCategory → Text
category_value evening = codes "evening"
category_value bridal = codes "bridal"
category_value engagement = codes "engagement"
category_value mens_suit = codes "mens_suit"
category_value traditional = codes "traditional"

-- `item.status == ItemStatus.ACTIVE.value`
abbrev pub is_in_use : ItemStatus → Bool
is_in_use active = true
is_in_use _ = false

-- `ItemStatus(...).value`
abbrev pub item_status_value : ItemStatus → Text
item_status_value active = codes "active"
item_status_value cleaning = codes "cleaning"
item_status_value repair = codes "repair"
item_status_value retired = codes "retired"
item_status_value lost = codes "lost"
