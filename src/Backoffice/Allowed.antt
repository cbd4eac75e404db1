-- ===== src/Backoffice/Allowed.antt =====
-- web/shop_catalog.py, web/shop_settings.py and auth/deps.py: who a request is served for, and what it may touch.
use twirl.Prelude.{
  ℕ, Bool, true, false, ◌&&◌, Option, none, some, ◌≡◌, refl, ◌⊎◌, inl, inr, ltb, ◌==◌, Bool-cases,
  sym, Option-cases, In, find-In, any-witness, eq_of_==, &&-left, &&-right,
}
use twirl.Exec.{Result, Result-cases, ok, err, and_then}
use twirl.Exec.Holds.{Ends, Ends-weaken}
use twirl.Errors.{Error}
use twirl.Host.{Host}
use twirl.Model.{Db, ShopClosure, Style, Item, ItemStatus, is_owner}
use twirl.Session.{restore}
use twirl.Backoffice.People.{ShopContext, Denied, uncaught, shop_actor, require_shop, require_role}
use twirl.Backoffice.Members.{IsMember, unblocked_lem, require_shop-IsMember}
use twirl.Backoffice.{
  Request, Answer, get_style, get_item, owners_only, committed, on_style, on_item, handle, serve,
  store_settings, set_state, add_style, has_closure, block_denied, edit_style, more_items,
  item_state, block, settings, closing, reopening,
}
use twirl.Catalog.{add_items}
use twirl.Staff.{create_block}
use twirl.Backoffice.Settings.{SettingsForm}

-- A style or an item that a request names by its id is stored, and of the shop; a closure is the shop's.
abbrev pub Reaches : ShopContext → Request → Db → Type 0
Reaches ctx (edit_style id form) db =
    (st : Style) × In st db.styles
    × (st.id ≡ id)
    × (st.shop_id ≡ ctx.shop.id)
    × (st.deleted_at ≡ none)
Reaches ctx (more_items id size quantity) db =
    (st : Style) × In st db.styles
    × (st.id ≡ id)
    × (st.shop_id ≡ ctx.shop.id)
    × (st.deleted_at ≡ none)
Reaches ctx (item_state id status) db =
    (i : Item) × In i db.items × (i.id ≡ id) × (i.shop_id ≡ ctx.shop.id)
Reaches ctx (block id a b reason) db =
    (i : Item) × In i db.items × (i.id ≡ id) × (i.shop_id ≡ ctx.shop.id)
Reaches ctx (reopening id) db = (c : ShopClosure) × In c ctx.shop.closures × (c.id ≡ id)
Reaches ctx req db = Unit

pub get_style_lem :
    (ctx : ShopContext) (id : ℕ) (db : Db) (st : Style)
    → get_style ctx id db ≡ some st
    → In st db.styles × (st.id ≡ id) × (st.shop_id ≡ ctx.shop.id) × (st.deleted_at ≡ none)
get_style_lem ctx id db st h =
    let (i, t) =
      find-In
        (λ (v : Style).
          v.id == id
          && v.shop_id == ctx.shop.id
          && elim v.deleted_at [ none ↦ true | some t ↦ false ])
        st db.styles h in
    let both = &&-left _ _ t in
    (
      i,
      eq_of_== st.id id (&&-left _ _ both),
      eq_of_== st.shop_id ctx.shop.id (&&-right _ _ both),
      unblocked_lem st.deleted_at (&&-right _ _ t),
    )

pub get_item_lem :
    (ctx : ShopContext) (id : ℕ) (db : Db) (i : Item)
    → get_item ctx id db ≡ some i
    → In i db.items × (i.id ≡ id) × (i.shop_id ≡ ctx.shop.id)
get_item_lem ctx id db i h =
    let (k, t) = find-In (λ (v : Item). v.id == id && v.shop_id == ctx.shop.id) i db.items h in
    (k, eq_of_== i.id id (&&-left _ _ t), eq_of_== i.shop_id ctx.shop.id (&&-right _ _ t))

-- Nothing was written, or the answer came after a rollback.
abbrev pub Kept : Db → Denied → Db → Type 0
Kept db e d = (d ≡ db) ⊎ ((s : Db) × (d ≡ restore db s))

committed-Ends :
    {A : Type 0} (Q : Type 0) (denied : Error → Denied) (db : Db) (r : Result Error A × Db)
    → Q
    → Ends (λ _ d. Q) (Kept db) (committed denied db r)
committed-Ends Q denied db (ok a, d) q = q
committed-Ends Q denied db (err e, d) q = inr (d, refl)

on_style-Ends :
    (Q : Type 0) (ctx : ShopContext) (id : ℕ) (db : Db) (k : Style → Answer)
    → ((st : Style) → get_style ctx id db ≡ some st → Ends (λ _ d. Q) (Kept db) (k st))
    → Ends (λ _ d. Q) (Kept db) (on_style (get_style ctx id db) db k)
on_style-Ends Q ctx id db k h = elim (Option-cases (get_style ctx id db)) [
  | inl e ↦ rw e (inl refl)
  | inr (st, e) ↦ rw e (h st e)
]

on_item-Ends :
    (Q : Type 0) (ctx : ShopContext) (id : ℕ) (db : Db) (k : Item → Answer)
    → ((i : Item) → get_item ctx id db ≡ some i → Ends (λ _ d. Q) (Kept db) (k i))
    → Ends (λ _ d. Q) (Kept db) (on_item (get_item ctx id db) db k)
on_item-Ends Q ctx id db k h = elim (Option-cases (get_item ctx id db)) [
  | inl e ↦ rw e (inl refl)
  | inr (i, e) ↦ rw e (h i e)
]

set_state-Ends :
    (Q : Type 0) (ctx : ShopContext) (status : Result Error ItemStatus) (today : ℕ) (db : Db)
    (i : Item)
    → Q
    → Ends (λ _ d. Q) (Kept db) (set_state ctx status today db i)
set_state-Ends Q ctx (err e) today db i q = inl refl
set_state-Ends Q ctx (ok status) today db i q = committed-Ends Q _ db _ q

store_settings-Ends :
    (f : Option SettingsForm) (ctx : ShopContext) (db : Db)
    → Ends (λ _ d. Unit) (Kept db) (store_settings f ctx db)
store_settings-Ends none ctx db = inl refl
store_settings-Ends (some form) ctx db = tt

-- The handlers, from a context that `get_style`, `get_item` and the closures of the shop are read with.
serve-Reaches :
    (host : Host) (today : ℕ) (ctx : ShopContext) (req : Request) (db : Db)
    → Ends (λ _ d. Reaches ctx req db) (Kept db) (serve host today ctx req db)
unfolding serve
serve-Reaches host today ctx (add_style form) db = committed-Ends Unit _ db _ tt
serve-Reaches host today ctx (edit_style id form) db =
    on_style-Ends _ ctx id db _
      λ st e. let (i, a, b, c) = get_style_lem ctx id db st e in (st, i, a, b, c)
serve-Reaches host today ctx (more_items id size quantity) db = on_style-Ends _ ctx id db _ λ st e.
    let (i, a, b, c) = get_style_lem ctx id db st e in
    committed-Ends (Reaches ctx (more_items id size quantity) db) uncaught db
      (add_items host st size quantity db) (st, i, a, b, c)
serve-Reaches host today ctx (item_state id status) db = on_item-Ends _ ctx id db _ λ i e.
    let (k, b, c) = get_item_lem ctx id db i e in set_state-Ends _ ctx _ today db i (i, k, b, c)
serve-Reaches host today ctx (block id a b reason) db = on_item-Ends _ ctx id db _ λ i e.
    let (k, same, own) = get_item_lem ctx id db i e in
    committed-Ends (Reaches ctx (block id a b reason) db) block_denied db
      (create_block host i.id a b reason (shop_actor ctx) db) (i, k, same, own)
serve-Reaches host today ctx (settings form) db = store_settings-Ends _ ctx db
serve-Reaches host today ctx (closing a b reason) db = elim (Bool-cases (ltb b a)) [
  | inl e ↦ rw e (inl refl)
  | inr e ↦ rw e tt
]
serve-Reaches host today ctx (reopening id) db = elim (Bool-cases (has_closure id ctx.shop)) [
  | inl e ↦
      let (c, i, t) = any-witness (λ (c : ShopClosure). c.id == id) ctx.shop.closures e in
      rw e (c, i, eq_of_== c.id id t)
  | inr e ↦ rw e (inl refl)
]

pub require_role_lem :
    (owners : Bool) (ctx c : ShopContext)
    → require_role owners ctx ≡ ok c
    → (ctx ≡ c) × ((owners ≡ false) ⊎ (is_owner ctx.role ≡ true))
require_role_lem owners ctx c h = elim (Bool-cases owners) [
  | inr e ↦ let same = rw e at h in (cc, inl e)
  | inl e ↦ elim (Bool-cases (is_owner ctx.role)) [
    | inl o ↦ let same = rw (e, o) at h in (cc, inr o)
    | inr o ↦ let wrong = rw (e, o) at h in cc
  ]
]

-- Whom a request is served for: a member of a shop, an owner where the handler asks for one.
abbrev pub IsServedTo : Option ℕ → Request → Db → ShopContext → Type 0
IsServedTo user_id req db ctx =
    IsMember user_id db ctx × ((owners_only req ≡ false) ⊎ (is_owner ctx.role ≡ true))

allowed_lem :
    (user_id : Option ℕ) (req : Request) (db : Db) (c : ShopContext)
    → and_then (require_shop user_id db) (require_role (owners_only req)) ≡ ok c
    → IsServedTo user_id req db c
allowed_lem user_id req db c h = elim (Result-cases (require_shop user_id db)) [
  | inr (e, f) ↦ let wrong = rw f at h in cc
  | inl (ctx, f) ↦
      let (same, o) = require_role_lem (owners_only req) ctx c (rw f at h) in
      rw (sym same) (require_shop-IsMember user_id db ctx f, o)
]

-- A form of the back office succeeds only for a stored user who is not blocked, in the shop of a stored
-- link of the user, who is an owner where the handler asks for one, and the style, item or closure that it
-- names is that shop's; with any other answer nothing was written, or it was rolled back.
pub handle-IsServedTo :
    (host : Host) (today : ℕ) (user_id : Option ℕ) (req : Request) (db : Db)
    → Ends
        (λ _ d. (ctx : ShopContext) × IsServedTo user_id req db ctx × Reaches ctx req db)
        (Kept db)
        (handle host today user_id req db)
unfolding handle
handle-IsServedTo host today user_id req db =
    let asked = and_then (require_shop user_id db) (require_role (owners_only req)) in
    elim (Result-cases asked) [
      | inr (e, f) ↦ rw f (inl refl)
      | inl (ctx, f) ↦ rw f (
          Ends-weaken (λ _ d. Reaches ctx req db) _ (Kept db) (Kept db)
            (serve host today ctx req db) (λ a s r. (ctx, allowed_lem user_id req db ctx f, r))
            (λ e s k. k) (serve-Reaches host today ctx req db))
    ]
