-- ===== src/Backoffice/People.antt =====
-- auth/deps.py: whose request it is, and with which shop.
use twirl.Prelude.{ℕ, Bool, true, false, not, ◌&&◌, Option, none, some, find, ◌==◌, if◌then◌else◌}
use twirl.Exec.{Result, ok, err}
use twirl.Errors.{Error}
use twirl.Model.{Db, User, Shop, ShopRole, ShopUser, Actor, ActorKind, is_owner}

-- What a handler answers other than success: a redirect to the login, a 403, a 404, a form or a redirect
-- that names what was wrong, and an exception that nothing handles.
pub data Denied : Type 0 where
  login_required forbidden missing invalid conflict bad_dates : Denied
  uncaught : Error → Denied

pub record ShopContext : Type 0 where
  pub user : User
  pub shop : Shop
  pub role : ShopRole

-- `current_user`
abbrev pub current_user : Option ℕ → Db → Option User
current_user none db = none
current_user (some id) db =
    find (λ (u : User). u.id == id && elim u.blocked_at [ none ↦ true | some t ↦ false ]) db.users

abbrev pub with_shop : User → ShopUser → Option Shop → Result Denied ShopContext
with_shop user link none = err missing
with_shop user link (some shop) = ok (record { user = user; shop = shop; role = link.role })

abbrev pub with_link : User → Option ShopUser → Db → Result Denied ShopContext
with_link user none db = err forbidden
with_link user (some link) db =
    with_shop user link (find (λ (s : Shop). s.id == link.shop_id) db.shops)

abbrev pub with_user : Option User → Db → Result Denied ShopContext
with_user none db = err login_required
with_user (some user) db =
    with_link user (find (λ (l : ShopUser). l.user_id == user.id) db.shop_users) db

-- `require_shop`
unfoldable pub require_shop : Option ℕ → Db → Result Denied ShopContext
require_shop user_id db = with_user (current_user user_id db) db

-- `require_owner`, for the forms that only an owner may send
abbrev pub require_role : Bool → ShopContext → Result Denied ShopContext
require_role owners ctx = if owners && not (is_owner ctx.role) then err forbidden else ok ctx

abbrev pub shop_actor : ShopContext → Actor
shop_actor ctx = record { kind = ActorKind.shop; id = some ctx.user.id }
