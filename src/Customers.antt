-- ===== src/Customers.antt =====
-- customers.py
pub mod Known
use twirl.Prelude.{
  ℕ, suc, Bool, false, ◌&&◌, none, some, [], ◌∷◌, ◌++◌, Text, codes, text_eq, strip, take, any,
  find, ◌==◌, if◌then◌else◌,
}
use twirl.Exec.{Exec, pure}
use twirl.Errors.{Error}
use twirl.Model.{Db, User, UserKind}
use twirl.Session.{one}

abbrev pub has_phone : Text → User → Bool
has_phone phone u = elim u.phone [ none ↦ false | some p ↦ text_eq p phone ]

abbrev new_renter : ℕ → Text → Text → User
new_renter id phone name = record {
  id = id;
  kind = UserKind.renter;
  name = take 120 (strip name);
  phone = some phone;
  email = none;
  password_hash = none;
  locale = codes "sq";
  blocked_at = none;
  phone_verified_at = none;
}

-- INSERT ... ON CONFLICT (phone) DO NOTHING. The sequence moves on either way.
unfoldable pub upsert_renter : Text → Text → Db → Db
upsert_renter phone name db =
    let users =
      if any (has_phone phone) db.users
      then db.users
      else db.users ++ new_renter db.user_seq phone name ∷ [] in
    record db { users = users; user_seq = suc db.user_seq }

unfoldable pub get_or_create_customer : Text → Text → Exec Db Error User
unfolding upsert_renter
get_or_create_customer phone name db =
    let db' = upsert_renter phone name db in (one (find (has_phone phone) db'.users), db')

unfoldable pub link_customer : (shop_id user_id : ℕ) → Exec Db Error (Unit {0})
unfolding pure
link_customer shop_id user_id db =
    let linked = any (λ c. c.shop_id == shop_id && c.user_id == user_id) db.shop_customers in
    pure tt (record db {
      shop_customers =
          if linked
          then db.shop_customers
          else db.shop_customers ++ record { shop_id = shop_id; user_id = user_id } ∷ [];
    })
