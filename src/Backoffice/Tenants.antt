-- ===== src/Backoffice/Tenants.antt =====
-- web/shop_catalog.py and web/shop_settings.py: the forms, and the rows of the other shops.
use twirl.Prelude.{
  ℕ, Option, none, some, List, [], Text, ◌≡◌, ◌≢◌, sym, inl, inr, ◌==◌, ltb, Bool-cases,
  Option-cases, In, ==-ne,
}
use twirl.Exec.{Result, Result-cases, ok, err}
use twirl.Errors.{Error}
use twirl.Host.{Host}
use twirl.Model.{Db, Shop, Style, Item, ItemStatus}
use twirl.Backoffice.People.{ShopContext, Denied, uncaught, shop_actor, require_shop, require_role}
use twirl.Backoffice.{
  add_closure, delete_closure, without_closure, Request, Answer, StyleForm, get_style, get_item,
  owners_only, committed, on_style, on_item, handle, serve, store_settings, store_shop, set_state,
  has_closure, block_denied, status_denied, new_style, edited, add_style, edit_style, more_items,
  item_state, block, settings, closing, reopening,
}
use twirl.Backoffice.Settings.{SettingsForm, apply_settings}
use twirl.Catalog.{create_style, add_items}
use twirl.Onboarding.{put_style}
use twirl.Staff.{set_item_status, create_block}
use twirl.Backoffice.Allowed.{get_style_lem, get_item_lem, require_role_lem}
use twirl.Backoffice.Isolated.{
  IsUntouched, kept_row, create_block-IsUntouched, set_item_status-IsUntouched,
  add_items-IsUntouched, create_style-IsUntouched,
}

-- No two rows have one id.
abbrev pub Unique : {A : Type 0} → (A → ℕ) → List A → Type 0
Unique {A} id xs = (x y : A) → In x xs → In y xs → id x ≡ id y → x ≡ y

IsUntouched-refl : (own : ℕ) (db : Db) → IsUntouched own db db
IsUntouched-refl own db = record {
  shops = λ s i ne. i;
  styles = λ s i ne. i;
  items = λ s i ne. i;
  bookings = λ s i ne. i;
}

committed-IsUntouched :
    {A : Type 0} (own : ℕ) (denied : Error → Denied) (db : Db) (r : Result Error A × Db)
    → IsUntouched own db r.1
    → IsUntouched own db (committed denied db r).1
committed-IsUntouched own denied db (ok a, d) h = h
committed-IsUntouched own denied db (err e, d) h = record {
  shops = λ s i ne. i;
  styles = λ s i ne. i;
  items = λ s i ne. i;
  bookings = λ s i ne. i;
}

store_shop-IsUntouched :
    (shop : Shop) (db d : Db)
    → IsUntouched shop.id db d
    → IsUntouched shop.id db (store_shop shop d).1
store_shop-IsUntouched shop db d h = record {
  shops = λ s i ne.
      kept_row (λ (t : Shop). t.id == shop.id) (λ t. shop) s d.shops (h.shops s i ne)
        (==-ne s.id shop.id ne);
  styles = h.styles;
  items = h.items;
  bookings = h.bookings;
}

module _ (ctx : ShopContext) (db : Db) where
  on_style-IsUntouched :
      (id : ℕ) (k : Style → Answer)
      → ((st : Style) → get_style ctx id db ≡ some st → IsUntouched ctx.shop.id db (k st).1)
      → IsUntouched ctx.shop.id db (on_style (get_style ctx id db) db k).1
  on_style-IsUntouched id k h = elim (Option-cases (get_style ctx id db)) [
    | inl e ↦ rw e (IsUntouched-refl ctx.shop.id db)
    | inr (st, e) ↦ rw e (h st e)
  ]

  on_item-IsUntouched :
      (id : ℕ) (k : Item → Answer)
      → ((i : Item) → get_item ctx id db ≡ some i → IsUntouched ctx.shop.id db (k i).1)
      → IsUntouched ctx.shop.id db (on_item (get_item ctx id db) db k).1
  on_item-IsUntouched id k h = elim (Option-cases (get_item ctx id db)) [
    | inl e ↦ rw e (IsUntouched-refl ctx.shop.id db)
    | inr (i, e) ↦ rw e (h i e)
  ]

  edited-IsUntouched :
      (id : ℕ) (form : StyleForm) (st : Style)
      → Unique (λ (s : Style). s.id) db.styles
      → get_style ctx id db ≡ some st
      → IsUntouched ctx.shop.id db (record db { styles = put_style (edited form st) db.styles })
  edited-IsUntouched id form st unique e =
      let (j, a, own, c) = get_style_lem ctx id db st e in
      record {
        shops = λ s i ne. i;
        styles = λ s i ne.
            kept_row (λ (t : Style). t.id == st.id) (λ t. edited form st) s db.styles i
              (==-ne s.id st.id λ same. ne (rw (unique s st i j same) own));
        items = λ s i ne. i;
        bookings = λ s i ne. i;
      }

  set_state-IsUntouched :
      (id : ℕ) (status : Result Error ItemStatus) (today : ℕ) (item : Item)
      → Unique (λ (i : Item). i.id) db.items
      → get_item ctx id db ≡ some item
      → IsUntouched ctx.shop.id db (set_state ctx status today db item).1
  set_state-IsUntouched id (err e) today item unique f = IsUntouched-refl ctx.shop.id db
  set_state-IsUntouched id (ok status) today item unique f =
      let (j, a, own) = get_item_lem ctx id db item f in
      let other : (x : Item) → In x db.items → x.shop_id ≢ ctx.shop.id → x.id ≢ item.id =
        λ x i ne same. ne (rw (unique x item i j same) own) in
      committed-IsUntouched ctx.shop.id status_denied db
        (set_item_status item.id status (shop_actor ctx) today [] db)
        ((set_item_status-IsUntouched ctx.shop.id db item.id status (shop_actor ctx) today []
            other).run
          db (IsUntouched-refl ctx.shop.id db))

  store_settings-IsUntouched :
      (f : Option SettingsForm) → IsUntouched ctx.shop.id db (store_settings f ctx db).1
  unfolding apply_settings
  store_settings-IsUntouched none = IsUntouched-refl ctx.shop.id db
  store_settings-IsUntouched (some form) =
      store_shop-IsUntouched (apply_settings form ctx.shop) db db (IsUntouched-refl ctx.shop.id db)

  add_closure-IsUntouched :
      (a b : ℕ) (reason : Text) → IsUntouched ctx.shop.id db (add_closure ctx a b reason db).1
  add_closure-IsUntouched a b reason = elim (Bool-cases (ltb b a)) [
    | inl e ↦ rw e (IsUntouched-refl ctx.shop.id db)
    | inr e ↦ rw e (
        store_shop-IsUntouched _ db _ (record {
          shops = λ s i ne. i;
          styles = λ s i ne. i;
          items = λ s i ne. i;
          bookings = λ s i ne. i;
        }))
  ]

  delete_closure-IsUntouched : (id : ℕ) → IsUntouched ctx.shop.id db (delete_closure ctx id db).1
  delete_closure-IsUntouched id = elim (Bool-cases (has_closure id ctx.shop)) [
    | inl e ↦ rw e (
        store_shop-IsUntouched (without_closure id ctx.shop) db db
          (IsUntouched-refl ctx.shop.id db))
    | inr e ↦ rw e (IsUntouched-refl ctx.shop.id db)
  ]

  serve-IsUntouched :
      (host : Host) (today : ℕ) (req : Request)
      → Unique (λ (s : Style). s.id) db.styles
      → Unique (λ (i : Item). i.id) db.items
      → IsUntouched ctx.shop.id db (serve host today ctx req db).1
  unfolding serve
  serve-IsUntouched host today (add_style form) us ui =
      committed-IsUntouched ctx.shop.id uncaught db (create_style ctx.shop.id (new_style form) db) (
        (create_style-IsUntouched ctx.shop.id db ctx.shop.id (new_style form)).run db
          (IsUntouched-refl ctx.shop.id db))
  serve-IsUntouched host today (edit_style id form) us ui =
      on_style-IsUntouched id _ λ st e. edited-IsUntouched id form st us e
  serve-IsUntouched host today (more_items id size quantity) us ui =
      on_style-IsUntouched id _ λ st e.
        committed-IsUntouched ctx.shop.id uncaught db (add_items host st size quantity db) (
          (add_items-IsUntouched ctx.shop.id db host st size quantity).run db
            (IsUntouched-refl ctx.shop.id db))
  serve-IsUntouched host today (item_state id status) us ui =
      on_item-IsUntouched id _ λ i e. set_state-IsUntouched id _ today i ui e
  serve-IsUntouched host today (block id a b reason) us ui = on_item-IsUntouched id _ λ i e.
      committed-IsUntouched ctx.shop.id block_denied db
        (create_block host i.id a b reason (shop_actor ctx) db)
        ((create_block-IsUntouched ctx.shop.id db host i.id a b reason (shop_actor ctx)).run db
          (IsUntouched-refl ctx.shop.id db))
  serve-IsUntouched host today (settings form) us ui = store_settings-IsUntouched _
  serve-IsUntouched host today (closing a b reason) us ui = add_closure-IsUntouched a b reason
  serve-IsUntouched host today (reopening id) us ui = delete_closure-IsUntouched id

-- A form of the back office leaves every shop, style, item and booking of another shop than the one of the
-- request as it was, whatever the answer, where no two styles and no two items have one id.
pub handle-IsUntouched :
    (host : Host) (today : ℕ) (user_id : Option ℕ) (req : Request) (db : Db) (ctx : ShopContext)
    → require_shop user_id db ≡ ok ctx
    → Unique (λ (s : Style). s.id) db.styles
    → Unique (λ (i : Item). i.id) db.items
    → IsUntouched ctx.shop.id db (handle host today user_id req db).1
unfolding handle
handle-IsUntouched host today user_id req db ctx found us ui =
    elim (Result-cases (require_role (owners_only req) ctx)) [
      | inr (e, f) ↦ rw (found, f) (IsUntouched-refl ctx.shop.id db)
      | inl (c, f) ↦
          let (same, o) = require_role_lem (owners_only req) ctx c f in
          let g : require_role (owners_only req) ctx ≡ ok ctx = rw (sym same) at f in
          rw (found, g) (serve-IsUntouched ctx db host today req us ui)
    ]
