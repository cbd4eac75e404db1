-- ===== src/Onboarding/Profile.antt =====
-- onboarding.py: the profile of a provider, `provider_errors` and `save_provider`.
pub mod Saved
use twirl.Prelude.{
  ℕ, suc, ◌+◌, Bool, true, false, not, ◌&&◌, ◌||◌, Option, none, some, List, [], ◌∷◌, ◌++◌, map,
  Text, codes, strip, words, join, is_empty, length, where_, find, ltb, leb, ◌==◌, if◌then◌else◌,
}
use twirl.Exec.{Exec, Result, ok, err, pure, raise, lift, gets, ◌>>=◌, ◌>>◌}
use twirl.Errors.{
  Error, OnboardingCode, onboarding_error, name_wrong, salon_name_wrong, address_wrong, city_wrong,
  whatsapp_wrong, hours_wrong,
}
use twirl.Host.{Host, normalize_phone}
use twirl.Model.{
  Db, User, Shop, ShopHours, ShopKind, ShopStatus, ShopUser, ShopRole, BookingMode, Payload,
  is_individual, shop_kind_value, provider_signed_up_admin,
}
use twirl.Session.{one}
use twirl.Notify.{notify_admin}
use twirl.Onboarding.{when, member, write_shop}
use twirl.Onboarding.Slug.{unique_slug}
use twirl.Onboarding.Provider.{WeeklyHours, valid, apply_hours, provider_shop, put_user}

abbrev pub cities : List Text
cities =
    codes "Prishtinë"
    ∷ codes "Prizren"
    ∷ codes "Pejë"
    ∷ codes "Gjakovë"
    ∷ codes "Gjilan"
    ∷ codes "Mitrovicë"
    ∷ codes "Ferizaj"
    ∷ codes "Vushtrri"
    ∷ codes "Podujevë"
    ∷ codes "Suharekë"
    ∷ codes "Rahovec"
    ∷ codes "Lipjan"
    ∷ codes "Fushë Kosovë"
    ∷ codes "Tjetër"
    ∷ []

-- nine to eight, on a Saturday to six
abbrev pub default_hours : WeeklyHours
default_hours = record {
  weekday_open = 540;
  weekday_close = 1200;
  saturday_open = 540;
  saturday_close = 1080;
  sunday_closed = true;
}

-- rows.get(weekday) of `{h.weekday: h for h in shop.hours}`
abbrev pub hours_on : ℕ → List ShopHours → Option ShopHours
hours_on weekday rows = find (λ (h : ShopHours). h.weekday == weekday) rows

abbrev pub sunday_off : Option ShopHours → Bool
sunday_off none = true
sunday_off (some h) = h.closed

-- A row that opens also closes: both columns are set together.
abbrev pub hours_between : Option ℕ → Option ℕ → Option ℕ → Option ℕ → Bool → WeeklyHours
hours_between (some a) (some b) (some c) (some d) off = record {
  weekday_open = a;
  weekday_close = b;
  saturday_open = c;
  saturday_close = d;
  sunday_closed = off;
}
hours_between _ _ _ _ off = default_hours

-- `weekday.opens` of a row that may be missing
abbrev opens_of : Option ShopHours → Option ℕ
opens_of none = none
opens_of (some h) = h.opens

abbrev closes_of : Option ShopHours → Option ℕ
closes_of none = none
closes_of (some h) = h.closes

unfoldable pub weekly_hours : List ShopHours → WeeklyHours
weekly_hours rows =
    let monday = hours_on 0 rows in
    let saturday = hours_on 5 rows in
    hours_between (opens_of monday) (closes_of monday) (opens_of saturday) (closes_of saturday)
      (sunday_off (hours_on 6 rows))

-- `_clean_name`
unfoldable pub clean_name : Text → Text
clean_name name = join (codes " ") (words name)

-- len(name.split(" ")) < 2: there is no space
abbrev pub has_one_word : Text → Bool
has_one_word name = is_empty (where_ (λ c. c == 32) name)

abbrev pub is_phone : Host → Text → Bool
is_phone host raw = elim (normalize_phone host raw) [ ok phone ↦ true | err e ↦ false ]

abbrev pub are_hours : Option WeeklyHours → Bool
are_hours none = false
are_hours (some h) = valid h

-- the fields of the form
pub record Profile : Type 0 where
  pub kind : ShopKind
  pub name : Text
  pub city : Text
  pub address : Text
  pub whatsapp : Text
  pub hours : Option WeeklyHours

unfoldable pub provider_errors : Host → Profile → List OnboardingCode
unfolding clean_name valid
provider_errors host p =
    let name = clean_name p.name in
    let salon = not (is_individual p.kind) in
    when (is_individual p.kind && has_one_word name) name_wrong
    ++ when (salon && ltb (length name) 3) salon_name_wrong
    ++ when (salon && ltb (length (strip p.address)) 4) address_wrong
    ++ when (not (member p.city cities)) city_wrong
    ++ when (salon && not (is_phone host p.whatsapp)) whatsapp_wrong
    ++ when (salon && not (are_hours p.hours)) hours_wrong

-- the columns of `Shop(...)` that the call leaves to their defaults
abbrev pub new_shop : ℕ → Text → Profile → Shop
new_shop id slug p = record {
  id = id;
  slug = slug;
  name = clean_name p.name;
  city = p.city;
  address = [];
  phone = none;
  whatsapp = none;
  viber = none;
  instagram = none;
  terms_text = [];
  pickup_lead_days = 2;
  return_after_days = 1;
  prep_days = 0;
  cleaning_days = 1;
  max_rental_days = 7;
  booking_mode = BookingMode.request;
  status = ShopStatus.draft;
  kind = p.kind;
  verified_at = none;
  terms_accepted_at = none;
  terms_version = none;
  onboarding_completed_at = none;
  hours = [];
  closures = [];
}

abbrev pub add_shop : ℕ → Shop → Db → Db
add_shop user_id shop db = record db {
  shops = db.shops ++ shop ∷ [];
  shop_users =
      db.shop_users ++ record { shop_id = shop.id; user_id = user_id; role = ShopRole.owner } ∷ [];
  shop_seq = suc db.shop_seq;
}

-- The shop of the user, or a new draft.
abbrev pub shop_or_new : Host → ℕ → Profile → Option Shop → Exec Db Error (Shop × Bool)
shop_or_new host user_id p (some shop) db = (ok (shop, false), db)
shop_or_new host user_id p none db =
    let shop = new_shop db.shop_seq (unique_slug host (clean_name p.name) db) p in
    (ok (shop, true), add_shop user_id shop db)

abbrev pub common_profile : User → Profile → Shop → Shop
common_profile user p shop = record shop {
  name = clean_name p.name;
  city = p.city;
  kind = p.kind;
  phone = user.phone;
}

abbrev pub salon_profile : Profile → Text → WeeklyHours → Shop → Shop
salon_profile p whatsapp hours shop = record shop {
  address = strip p.address;
  whatsapp = some whatsapp;
  hours = apply_hours hours shop.hours;
}

abbrev pub or_default : Option WeeklyHours → WeeklyHours
or_default none = default_hours
or_default (some h) = h

unfoldable pub write_user : User → Exec Db Error (Unit {0})
unfolding pure
write_user u db = pure tt (record db { users = put_user u db.users })

-- the part of `save_provider` for a salon, and that for an individual
unfoldable pub save_salon : Host → User → Profile → Shop → Exec Db Error Shop
save_salon host user p shop = do
  whatsapp ← lift (normalize_phone host p.whatsapp)
  let saved = salon_profile p whatsapp (or_default p.hours) (common_profile user p shop)
  write_shop saved
  write_user (record user { name = if is_empty user.name then clean_name p.name else user.name })
  pure saved

unfoldable pub save_individual : User → Profile → Shop → Exec Db Error Shop
save_individual user p shop = do
  let saved = record (common_profile user p shop) { address = []; whatsapp = user.phone }
  write_shop saved
  write_user (record user { name = clean_name p.name })
  pure saved

abbrev pub signed_up_payload : User → Shop → Payload
signed_up_payload user shop =
    (codes "shop_name", shop.name)
    ∷ (codes "kind", shop_kind_value shop.kind)
    ∷ (codes "city", shop.city)
    ∷ (codes "phone", elim user.phone [ none ↦ [] | some phone ↦ phone ])
    ∷ []

abbrev pub announce_new : Bool → User → Shop → Exec Db Error (Unit {0})
announce_new false user shop = pure tt
announce_new true user shop = notify_admin provider_signed_up_admin (signed_up_payload user shop)

-- what follows the check of the profile
unfoldable pub store_profile : Host → User → Profile → Exec Db Error Shop
store_profile host user p = do
  found ← gets (provider_shop user.id)
  (shop, is_new) ← shop_or_new host user.id p found
  saved ← if is_individual p.kind then save_individual user p shop else save_salon host user p shop
  announce_new is_new user saved
  pure saved

abbrev pub unless_wrong : List OnboardingCode → Exec Db Error Shop → Exec Db Error Shop
unless_wrong [] m = m
unless_wrong (code ∷ rest) m = raise (onboarding_error code)

unfoldable pub save_provider : Host → (user_id : ℕ) → Profile → Exec Db Error Shop
save_provider host user_id p = do
  found ← gets (λ db. find (λ (u : User). u.id == user_id) db.users)
  user ← lift (one found)
  unless_wrong (provider_errors host p) (store_profile host user p)
