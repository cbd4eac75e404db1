-- ===== src/Backoffice/Members.antt =====
-- auth/deps.py: what the context of a request is read from.
use twirl.Prelude.{
  ℕ, true, false, ◌&&◌, Option, none, some, ◌≡◌, refl, inl, inr, find, ◌==◌, sym, Option-cases, In,
  find-In, eq_of_==, &&-left, &&-right,
}
use twirl.Exec.{ok}
use twirl.Model.{Db, User, Shop, ShopUser}
use twirl.Backoffice.People.{ShopContext, current_user, with_shop, with_link, require_shop}

-- The context is of a stored user who is not blocked, and of the shop a stored link gives that user.
pub record IsMember (user_id : Option ℕ) (db : Db) (ctx : ShopContext) : Type 0 where
  pub session : user_id ≡ some ctx.user.id
  pub stored : In ctx.user db.users
  pub unblocked : ctx.user.blocked_at ≡ none
  pub link : ShopUser
  pub linked : In link db.shop_users
  pub user_link : link.user_id ≡ ctx.user.id
  pub shop_link : link.shop_id ≡ ctx.shop.id
  pub role_link : link.role ≡ ctx.role
  pub shop_stored : In ctx.shop db.shops

pub unblocked_lem : (t : Option ℕ) → elim t [ none ↦ true | some s ↦ false ] ≡ true → t ≡ none
unblocked_lem none h = refl
unblocked_lem (some s) h = cc

current_user_lem :
    (user_id : Option ℕ) (db : Db) (u : User)
    → current_user user_id db ≡ some u
    → (user_id ≡ some u.id) × In u db.users × (u.blocked_at ≡ none)
current_user_lem none db u h = cc
current_user_lem (some id) db u h =
    let (i, t) =
      find-In (λ (v : User). v.id == id && elim v.blocked_at [ none ↦ true | some t ↦ false ]) u
        db.users h in
    let e = eq_of_== u.id id (&&-left _ _ t) in
    (rw e refl, i, unblocked_lem u.blocked_at (&&-right _ _ t))

with_shop_lem :
    (user : User) (link : ShopUser) (s : Option Shop) (ctx : ShopContext)
    → with_shop user link s ≡ ok ctx
    → (s ≡ some ctx.shop) × (user ≡ ctx.user) × (link.role ≡ ctx.role)
with_shop_lem user link none ctx h = cc
with_shop_lem user link (some shop) ctx h = (cc, cc, cc)

with_link_lem :
    (user : User) (l : Option ShopUser) (db : Db) (ctx : ShopContext)
    → with_link user l db ≡ ok ctx
    → (link : ShopUser) × (l ≡ some link)
      × (user ≡ ctx.user)
      × (link.role ≡ ctx.role)
      × In ctx.shop db.shops
      × (ctx.shop.id ≡ link.shop_id)
with_link_lem user none db ctx h = cc
with_link_lem user (some link) db ctx h =
    let test = λ (s : Shop). s.id == link.shop_id in
    let (f, u, r) = with_shop_lem user link (find test db.shops) ctx h in
    let (i, t) = find-In test ctx.shop db.shops f in
    (link, refl, u, r, i, eq_of_== ctx.shop.id link.shop_id t)

-- The context of `require_shop`, from its own reading of the tables.
pub require_shop-IsMember :
    (user_id : Option ℕ) (db : Db) (ctx : ShopContext)
    → require_shop user_id db ≡ ok ctx
    → IsMember user_id db ctx
unfolding require_shop
require_shop-IsMember user_id db ctx h = elim (Option-cases (current_user user_id db)) [
  | inl e ↦ let wrong = rw e at h in cc
  | inr (user, e) ↦
      let test = λ (l : ShopUser). l.user_id == user.id in
      let (link, f, u, r, i, s) = with_link_lem user (find test db.shop_users) db ctx (rw e at h) in
      let (k, t) = find-In test link db.shop_users f in
      let (a, b, c) = current_user_lem user_id db user e in
      record {
        session = rw (sym u) a;
        stored = rw (sym u) b;
        unblocked = rw (sym u) c;
        link = link;
        linked = k;
        user_link = rw (sym u) (eq_of_== link.user_id user.id t);
        shop_link = sym s;
        role_link = r;
        shop_stored = i;
      }
]
