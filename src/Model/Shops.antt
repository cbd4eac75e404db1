-- ===== src/Model/Shops.antt =====
-- models/shops.py
use twirl.Prelude.{ℕ, Bool, true, false, Option, List, Text, codes}

pub data ShopStatus : Type 0 where
  draft verified published suspended : ShopStatus

pub data BookingMode : Type 0 where
  request instant : BookingMode

pub data ShopKind : Type 0 where
  salon individual : ShopKind

pub data ShopRole : Type 0 where
  owner staff : ShopRole

-- Times of day count minutes.
pub record ShopHours : Type 0 where
  pub weekday : ℕ
  pub opens : Option ℕ
  pub closes : Option ℕ
  pub closed : Bool

-- Dates are proleptic Gregorian ordinals, as `date.toordinal` gives them.
pub record ShopClosure : Type 0 where
  pub id : ℕ
  pub starts_on : ℕ
  pub ends_on : ℕ
  pub reason : Text

-- `hours` and `closures` are the rows of `shop_hours` and `shop_closures` that belong to the shop.
pub record Shop : Type 0 where
  pub id : ℕ
  pub slug : Text
  pub name : Text
  pub city : Text
  pub address : Text
  pub phone : Option Text
  pub whatsapp : Option Text
  pub viber : Option Text
  pub instagram : Option Text
  pub terms_text : Text
  pub pickup_lead_days : ℕ
  pub return_after_days : ℕ
  pub prep_days : ℕ
  pub cleaning_days : ℕ
  pub max_rental_days : ℕ
  pub booking_mode : BookingMode
  pub status : ShopStatus
  pub kind : ShopKind
  pub verified_at : Option ℕ
  pub terms_accepted_at : Option ℕ
  pub terms_version : Option Text
  pub onboarding_completed_at : Option ℕ
  pub hours : List ShopHours
  pub closures : List ShopClosure

pub record ShopUser : Type 0 where
  pub shop_id : ℕ
  pub user_id : ℕ
  pub role : ShopRole

pub record ShopCustomer : Type 0 where
  pub shop_id : ℕ
  pub user_id : ℕ

-- `shop.status == ShopStatus.PUBLISHED.value`
abbrev pub is_published : ShopStatus → Bool
is_published ShopStatus.published = true
is_published _ = false

-- `shop.booking_mode == BookingMode.INSTANT.value`
abbrev pub is_instant : BookingMode → Bool
is_instant instant = true
is_instant request = false

-- `role == ShopRole.OWNER.value`
abbrev pub is_owner : ShopRole → Bool
is_owner owner = true
is_owner staff = false

-- `ShopKind(...).value`
abbrev pub shop_kind_value : ShopKind → Text
shop_kind_value salon = codes "salon"
shop_kind_value individual = codes "individual"

-- `status == ShopStatus.DRAFT.value`
abbrev pub is_draft : ShopStatus → Bool
is_draft draft = true
is_draft _ = false

-- `kind == ShopKind.INDIVIDUAL`
abbrev pub is_individual : ShopKind → Bool
is_individual individual = true
is_individual salon = false
