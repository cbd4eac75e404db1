-- ===== src/Onboarding/Provider.antt =====
-- onboarding.py: the user and the shop of a provider, and the opening hours.
pub mod Verified
use twirl.Prelude.{
  ℕ, zero, suc, ◌+◌, ◌-◌, Bool, true, false, not, ◌&&◌, Option, none, some, List, [], ◌∷◌, ◌++◌,
  map, Text, codes, any, find, ltb, leb, ◌==◌, if◌then◌else◌,
}
use twirl.Model.{Db, User, UserKind, Shop, ShopHours, ShopUser, Booking, Item, Style}
use twirl.Exec.{Result, ok, err, and_then}
use twirl.Errors.{Error, overflow_error}
use twirl.Dates.{date_max}
use twirl.Customers.{has_phone}
use twirl.Onboarding.{active_items, onboarding_blocks}

abbrev pub is_renter : UserKind → Bool
is_renter UserKind.renter = true
is_renter _ = false

abbrev pub new_provider : ℕ → Text → ℕ → User
new_provider id phone now = record {
  id = id;
  kind = UserKind.shop;
  name = [];
  phone = some phone;
  email = none;
  password_hash = none;
  locale = codes "sq";
  blocked_at = none;
  phone_verified_at = some now;
}

abbrev pub as_provider : User → ℕ → User
as_provider u now = record u {
  kind = if is_renter u.kind then UserKind.shop else u.kind;
  phone_verified_at = some now;
}

abbrev pub put_user : User → List User → List User
put_user u users = map (λ (v : User). if v.id == u.id then u else v) users

abbrev pub store_provider : Text → ℕ → Option User → Db → User × Db
store_provider phone now none db =
    let u = new_provider db.user_seq phone now in
    (u, record db { users = db.users ++ u ∷ []; user_seq = suc db.user_seq })
store_provider phone now (some found) db =
    let u = as_provider found now in (u, record db { users = put_user u db.users })

unfoldable pub verify_provider_phone : (phone : Text) → (now : ℕ) → Db → User × Db
verify_provider_phone phone now db = store_provider phone now (find (has_phone phone) db.users) db

abbrev pub shop_of : Option ShopUser → List Shop → Option Shop
shop_of none shops = none
shop_of (some link) shops = find (λ (s : Shop). s.id == link.shop_id) shops

unfoldable pub provider_shop : ℕ → Db → Option Shop
provider_shop user_id db =
    shop_of (find (λ (l : ShopUser). l.user_id == user_id) db.shop_users) db.shops

-- Times of day count minutes.
pub record WeeklyHours : Type 0 where
  pub weekday_open : ℕ
  pub weekday_close : ℕ
  pub saturday_open : ℕ
  pub saturday_close : ℕ
  pub sunday_closed : Bool

unfoldable pub valid : WeeklyHours → Bool
valid h = ltb h.weekday_open h.weekday_close && ltb h.saturday_open h.saturday_close

-- What `_apply_hours` sets on the row of a day.
abbrev pub day_hours : WeeklyHours → ℕ → ShopHours
day_hours h weekday = record {
  weekday = weekday;
  opens = if ltb weekday 5 then some h.weekday_open else some h.saturday_open;
  closes = if ltb weekday 5 then some h.weekday_close else some h.saturday_close;
  closed = if leb weekday 5 then false else h.sunday_closed;
}

unfoldable pub apply_day : WeeklyHours → ℕ → List ShopHours → List ShopHours
apply_day h weekday rows =
    if any (λ (r : ShopHours). r.weekday == weekday) rows
    then map (λ (r : ShopHours). if r.weekday == weekday then day_hours h weekday else r) rows
    else rows ++ day_hours h weekday ∷ []

unfoldable pub apply_days : WeeklyHours → List ℕ → List ShopHours → List ShopHours
apply_days h [] rows = rows
apply_days h (weekday ∷ weekdays) rows = apply_days h weekdays (apply_day h weekday rows)

unfoldable pub apply_hours : WeeklyHours → List ShopHours → List ShopHours
unfolding apply_days
apply_hours h rows = apply_days h (0 ∷ 1 ∷ 2 ∷ 3 ∷ 4 ∷ 5 ∷ 6 ∷ []) rows

-- The loop over the days of a block, with as many rounds as it has days.
unfoldable pub days_from : (rounds day : ℕ) → List ℕ
days_from zero day = []
days_from (suc rounds) day = day ∷ days_from rounds (day + 1)

-- The step past the last date that `date` has raises.
abbrev pub days_of_block : Booking → Result Error (List ℕ)
days_of_block b =
    if leb b.pickup_date b.return_date && leb date_max b.return_date
    then err overflow_error
    else ok (days_from (b.return_date + 1 - b.pickup_date) b.pickup_date)

unfoldable pub block_days : List Booking → Result Error (List ℕ)
block_days [] = ok []
block_days (b ∷ blocks) =
    and_then (days_of_block b) λ days. and_then (block_days blocks) λ rest. ok (days ++ rest)

abbrev pub blocked_days_of : List Item → Db → Result Error (List ℕ)
blocked_days_of [] db = ok []
blocked_days_of (item ∷ items) db = block_days (onboarding_blocks item.id db)

-- The set of days, as a list that may name a day twice.
unfoldable pub blocked_dates : ℕ → Db → Result Error (List ℕ)
blocked_dates style_id db = blocked_days_of (active_items style_id db) db

-- `next_months`
unfoldable pub next_months : (year month count : ℕ) → List (ℕ × ℕ)
next_months year month zero = []
next_months year month (suc count) =
    let later =
      if month == 12 then next_months (year + 1) 1 count else next_months year (month + 1) count in
    (year, month) ∷ later
