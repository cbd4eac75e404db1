-- ===== src/Backoffice/Settings.antt =====
-- web/shop_settings.py: the form of the settings.
use twirl.Prelude.{
  ℕ, Bool, ◌&&◌, Option, none, some, List, [], ◌∷◌, ◌++◌, map, Text, strip, is_empty, length, any,
  all, leb, ◌==◌, if◌then◌else◌,
}
use twirl.Exec.{ok, err}
use twirl.Host.{Host, normalize_phone}
use twirl.Model.{Shop, ShopHours}

pub record SettingsForm : Type 0 where
  pub name : Text
  pub city : Text
  pub address : Text
  pub phone : Text
  pub whatsapp : Text
  pub viber : Text
  pub instagram : Text
  pub terms_text : Text
  pub pickup_lead_days : ℕ
  pub return_after_days : ℕ
  pub prep_days : ℕ
  pub cleaning_days : ℕ
  pub max_rental_days : ℕ
  pub closed_weekdays : List ℕ

-- `_phone`: none where the number is not valid
abbrev pub clean_phone : Host → Text → Option Text
clean_phone host raw =
    let stripped = strip raw in
    let number = elim (normalize_phone host stripped) as (λ _. Option Text) [
      | ok e164 ↦ some e164
      | err e ↦ none
    ] in
    if is_empty stripped then some [] else number

abbrev pub within : ℕ → ℕ → ℕ → Bool
within low high n = leb low n && leb n high

-- the constraints of the fields
abbrev pub fields_valid : SettingsForm → Bool
fields_valid f =
    within 2 120 (length f.name)
    && within 2 60 (length f.city)
    && leb (length f.address) 255
    && leb (length f.instagram) 60
    && leb (length f.terms_text) 4000
    && leb f.pickup_lead_days 5
    && leb f.return_after_days 3
    && leb f.prep_days 2
    && leb f.cleaning_days 5
    && within 1 14 f.max_rental_days
    && all (λ day. leb day 6) f.closed_weekdays

abbrev pub with_phones :
    SettingsForm → Option Text → Option Text → Option Text → Option SettingsForm
with_phones f (some a) (some b) (some c) = some (record f { phone = a; whatsapp = b; viber = c })
with_phones f _ _ _ = none

-- `validate_form(SettingsForm, form)`
unfoldable pub check_settings : Host → SettingsForm → Option SettingsForm
check_settings host f =
    if fields_valid f
    then with_phones f (clean_phone host f.phone) (clean_phone host f.whatsapp)
        (clean_phone host f.viber)
    else none

-- `value or None`
abbrev pub or_none : Text → Option Text
or_none t = if is_empty t then none else some t

abbrev pub is_closed_on : List ℕ → ℕ → Bool
is_closed_on days weekday = any (λ d. d == weekday) days

abbrev pub blank_hours : ℕ → Bool → ShopHours
blank_hours weekday closed = record {
  weekday = weekday;
  opens = none;
  closes = none;
  closed = closed;
}

-- the row of a weekday, there or new
abbrev pub close_day : List ℕ → ℕ → List ShopHours → List ShopHours
close_day days weekday rows =
    if any (λ (r : ShopHours). r.weekday == weekday) rows
    then map
        (λ (r : ShopHours).
          if r.weekday == weekday then record r { closed = is_closed_on days weekday } else r)
        rows
    else rows ++ blank_hours weekday (is_closed_on days weekday) ∷ []

abbrev pub close_days : List ℕ → List ℕ → List ShopHours → List ShopHours
close_days days [] rows = rows
close_days days (weekday ∷ weekdays) rows = close_days days weekdays (close_day days weekday rows)

-- what `save_settings` sets on the shop
unfoldable pub apply_settings : SettingsForm → Shop → Shop
apply_settings f shop = record shop {
  name = f.name;
  city = f.city;
  address = f.address;
  phone = or_none f.phone;
  whatsapp = or_none f.whatsapp;
  viber = or_none f.viber;
  instagram = or_none f.instagram;
  terms_text = f.terms_text;
  pickup_lead_days = f.pickup_lead_days;
  return_after_days = f.return_after_days;
  prep_days = f.prep_days;
  cleaning_days = f.cleaning_days;
  max_rental_days = f.max_rental_days;
  hours = close_days f.closed_weekdays (0 ∷ 1 ∷ 2 ∷ 3 ∷ 4 ∷ 5 ∷ 6 ∷ []) shop.hours;
}
