-- ===== src/Backoffice.antt =====
-- web/shop_catalog.py and web/shop_settings.py: what the people of a shop do to its styles,
-- items and settings. A form is given with its fields parsed.
pub mod People
pub mod Settings
pub mod Members
pub mod Allowed
pub mod Isolated
pub mod Tenants
use twirl.Prelude.{
  ℕ, suc, Bool, true, false, not, ◌&&◌, ◌||◌, Option, none, some, List, [], ◌∷◌, ◌++◌, map, Text,
  strip, is_empty, find, any, ltb, where_, ◌==◌, if◌then◌else◌,
}
use twirl.Exec.{Exec, Result, ok, err, and_then}
use twirl.Errors.{Error, invalid_dates, item_conflict, value_error}
use twirl.Host.{Host}
use twirl.Model.{
  Db, User, Shop, ShopClosure, ShopRole, ShopUser, Style, StyleImage, Item, ItemStatus, Occasion,
  ColourFamily, DressLength, Actor, ActorKind, is_owner, occasion_value, colour_value, length_value,
  item_status_value,
}
use twirl.Model.{active, cleaning, repair, retired, lost}
use twirl.Session.{restore}
use twirl.Catalog.{NewStyle, create_style, add_items, with_value}
use twirl.Photos.{save_style_image}
use twirl.Staff.{set_item_status, create_block}
use twirl.Onboarding.{put_style, put_shop}
use twirl.Backoffice.People.{
  Denied, login_required, forbidden, missing, invalid, conflict, bad_dates, uncaught, ShopContext,
  require_shop, require_role, shop_actor,
}
use twirl.Backoffice.Settings.{SettingsForm, check_settings, apply_settings}

-- `_get_style`
abbrev pub get_style : ShopContext → ℕ → Db → Option Style
get_style ctx id db =
    find
      (λ (st : Style).
        st.id == id
        && st.shop_id == ctx.shop.id
        && elim st.deleted_at [ none ↦ true | some t ↦ false ])
      db.styles

-- `_get_item`
abbrev pub get_item : ShopContext → ℕ → Db → Option Item
get_item ctx id db = find (λ (i : Item). i.id == id && i.shop_id == ctx.shop.id) db.items

pub record StyleForm : Type 0 where
  pub name : Text
  pub price_cents : ℕ
  pub description : Text
  pub occasion_tags : List Occasion
  pub colour_family : Option ColourFamily
  pub length : Option DressLength
  pub stretch : Bool
  pub adjustable_back : Bool
  pub published : Bool

abbrev pub value_of : {A : Type 0} → (A → Text) → Option A → Option Text
value_of value none = none
value_of value (some a) = some (value a)

-- `create_style(db, ctx.shop, **_apply(parsed))`
abbrev pub new_style : StyleForm → NewStyle
new_style form = record {
  name = strip form.name;
  price_cents = form.price_cents;
  description = strip form.description;
  occasion_tags = map occasion_value form.occasion_tags;
  colour_family = value_of colour_value form.colour_family;
  length = value_of length_value form.length;
  stretch = form.stretch;
  adjustable_back = form.adjustable_back;
  published = form.published;
}

-- the loop of `update_style` over `_apply(parsed)`
abbrev pub edited : StyleForm → Style → Style
edited form st = record st {
  name = strip form.name;
  price_cents = form.price_cents;
  description = strip form.description;
  occasion_tags = form.occasion_tags;
  colour_family = form.colour_family;
  length = form.length;
  stretch = form.stretch;
  adjustable_back = form.adjustable_back;
  published = form.published;
}

abbrev pub item_statuses : List ItemStatus
item_statuses = active ∷ cleaning ∷ repair ∷ retired ∷ lost ∷ []

pub data Request : Type 0 where
  add_style : StyleForm → Request
  edit_style : (style_id : ℕ) → StyleForm → Request
  more_items : (style_id : ℕ) → (size : Text) → (quantity : ℕ) → Request
  item_state : (item_id : ℕ) → (status : Text) → Request
  block : (item_id starts_on ends_on : ℕ) → (reason : Text) → Request
  settings : SettingsForm → Request
  closing : (starts_on ends_on : ℕ) → (reason : Text) → Request
  reopening : (closure_id : ℕ) → Request

-- the handlers that depend on `require_owner`
abbrev pub owners_only : Request → Bool
owners_only (add_style form) = true
owners_only (edit_style id form) = true
owners_only (settings form) = true
owners_only (closing a b reason) = true
owners_only (reopening id) = true
owners_only _ = false

abbrev pub Answer : Type 0
Answer = Result Denied (Unit {0}) × Db

-- commit, or no commit and an answer
abbrev pub committed : {A : Type 0} → (Error → Denied) → Db → Result Error A × Db → Answer
committed denied db (ok a, d) = (ok tt, d)
committed denied db (err e, d) = (err (denied e), restore db d)

abbrev pub on_style : Option Style → Db → (Style → Answer) → Answer
on_style none db k = (err missing, db)
on_style (some st) db k = k st

abbrev pub on_item : Option Item → Db → (Item → Answer) → Answer
on_item none db k = (err missing, db)
on_item (some i) db k = k i

-- except ValueError, of the status
abbrev pub status_denied : Error → Denied
status_denied value_error = invalid
status_denied e = uncaught e

-- except ItemConflict, except InvalidDates
abbrev pub block_denied : Error → Denied
block_denied (item_conflict bookings overridable) = conflict
block_denied (invalid_dates code) = bad_dates
block_denied e = uncaught e

abbrev pub set_state : ShopContext → Result Error ItemStatus → (today : ℕ) → Db → Item → Answer
set_state ctx (err e) today db i = (err (status_denied e), db)
set_state ctx (ok status) today db i =
    committed status_denied db (set_item_status i.id status (shop_actor ctx) today [] db)

abbrev pub store_shop : Shop → Db → Answer
store_shop shop db = (ok tt, record db { shops = put_shop shop db.shops })

abbrev pub store_settings : Option SettingsForm → ShopContext → Db → Answer
store_settings none ctx db = (err invalid, db)
store_settings (some form) ctx db = store_shop (apply_settings form ctx.shop) db

abbrev pub new_closure : ℕ → ℕ → ℕ → Text → ShopClosure
new_closure id starts_on ends_on reason = record {
  id = id;
  starts_on = starts_on;
  ends_on = ends_on;
  reason = strip reason;
}

abbrev pub has_closure : ℕ → Shop → Bool
has_closure id shop = any (λ (c : ShopClosure). c.id == id) shop.closures

abbrev pub without_closure : ℕ → Shop → Shop
without_closure id shop = record shop {
  closures = where_ (λ (c : ShopClosure). not (c.id == id)) shop.closures;
}

abbrev pub create_style_route : ShopContext → StyleForm → Db → Answer
create_style_route ctx form db =
    committed uncaught db (create_style ctx.shop.id (new_style form) db)

abbrev pub update_style : ShopContext → ℕ → StyleForm → Db → Answer
update_style ctx id form db =
    on_style (get_style ctx id db) db
      λ st. (ok tt, record db { styles = put_style (edited form st) db.styles })

abbrev pub add_items_route : Host → ShopContext → ℕ → Text → ℕ → Db → Answer
add_items_route host ctx id size quantity db =
    on_style (get_style ctx id db) db
      λ st. committed uncaught db (add_items host st size quantity db)

abbrev pub item_status : (today : ℕ) → ShopContext → ℕ → Text → Db → Answer
item_status today ctx id status db =
    on_item (get_item ctx id db) db
      (set_state ctx (with_value item_status_value item_statuses status) today db)

abbrev pub block_item : Host → ShopContext → (id starts_on ends_on : ℕ) → Text → Db → Answer
block_item host ctx id starts_on ends_on reason db = on_item (get_item ctx id db) db λ i.
    committed block_denied db (create_block host i.id starts_on ends_on reason (shop_actor ctx) db)

abbrev pub save_settings : Host → ShopContext → SettingsForm → Db → Answer
save_settings host ctx form db = store_settings (check_settings host form) ctx db

abbrev pub add_closure : ShopContext → (starts_on ends_on : ℕ) → Text → Db → Answer
add_closure ctx starts_on ends_on reason db =
    if ltb ends_on starts_on
    then (err invalid, db)
    else store_shop
        (record ctx.shop {
          closures = ctx.shop.closures ++ new_closure db.closure_seq starts_on ends_on reason ∷ [];
        })
        (record db { closure_seq = suc db.closure_seq })

abbrev pub delete_closure : ShopContext → ℕ → Db → Answer
delete_closure ctx id db =
    if has_closure id ctx.shop
    then store_shop (without_closure id ctx.shop) db
    else (err missing, db)

-- The handler of a request, from the context of the shop on.
unfoldable pub serve : Host → (today : ℕ) → ShopContext → Request → Db → Answer
serve host today ctx (add_style form) db = create_style_route ctx form db
serve host today ctx (edit_style id form) db = update_style ctx id form db
serve host today ctx (more_items id size quantity) db = add_items_route host ctx id size quantity db
serve host today ctx (item_state id status) db = item_status today ctx id status db
serve host today ctx (block id starts_on ends_on reason) db =
    block_item host ctx id starts_on ends_on reason db
serve host today ctx (settings form) db = save_settings host ctx form db
serve host today ctx (closing starts_on ends_on reason) db =
    add_closure ctx starts_on ends_on reason db
serve host today ctx (reopening id) db = delete_closure ctx id db

abbrev pub serve_in : Host → (today : ℕ) → Request → Result Denied ShopContext → Db → Answer
serve_in host today req (err e) db = (err e, db)
serve_in host today req (ok ctx) db = serve host today ctx req db

unfoldable pub handle : Host → (today : ℕ) → (user_id : Option ℕ) → Request → Db → Answer
handle host today user_id req db =
    serve_in host today req (and_then (require_shop user_id db) (require_role (owners_only req))) db
