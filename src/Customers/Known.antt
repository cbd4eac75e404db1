-- ===== src/Customers/Known.antt =====
-- customers.py: `get_or_create_customer`, called once and again.
use twirl.Prelude.{
  ◌≡◌, refl, inl, inr, true, Text, text_eq_refl, any, any-true, any-witness, find-In, find-total,
  In, In-append_right, Bool-cases,
}
use twirl.Exec.{ok}
use twirl.Model.{Db, User}
use twirl.Customers.{has_phone, new_renter, upsert_renter, get_or_create_customer}

-- After the upsert somebody has the phone.
known :
    (phone name : Text) (db : Db)
    → (u : User) × In u (upsert_renter phone name db).users × (has_phone phone u ≡ true)
unfolding upsert_renter
known phone name db = elim (Bool-cases (any (has_phone phone) db.users)) [
  | inl e ↦ rw e (any-witness (has_phone phone) db.users e)
  | inr e ↦ rw e (
    new_renter db.user_seq phone name,
    In-append_right _ db.users _ (inl refl),
    text_eq_refl phone,
  )
]

-- A second upsert of the phone adds nobody.
upsert_again :
    (phone name other : Text) (db : Db)
    → (upsert_renter phone other (upsert_renter phone name db)).users
      ≡ (upsert_renter phone name db).users
upsert_again phone name other db =
    let (u, i, own) = known phone name db in
    unchanged (upsert_renter phone name db)
      (any-true (has_phone phone) u (upsert_renter phone name db).users i own)
  where
    unchanged :
        (d : Db)
        → any (has_phone phone) d.users ≡ true
        → (upsert_renter phone other d).users ≡ d.users
    unchanged d e = unfold upsert_renter in rw e refl

-- `get_or_create_customer` never raises: it returns a stored user with the phone. Called again for that
-- phone, under whatever name, it returns the same user and adds nobody.
pub get_or_create_customer-same :
    (phone name other : Text) (db : Db)
    → let d = (get_or_create_customer phone name db).1 in
      (u : User) × ((get_or_create_customer phone name db).0 ≡ ok u)
      × In u d.users
      × (has_phone phone u ≡ true)
      × ((get_or_create_customer phone other d).0 ≡ ok u)
      × ((get_or_create_customer phone other d).1.users ≡ d.users)
unfolding get_or_create_customer
get_or_create_customer-same phone name other db =
    let (w, j, has) = known phone name db in
    let d = upsert_renter phone name db in
    let (u, e) = find-total (has_phone phone) w d.users j has in
    let (i, own) = find-In (has_phone phone) u d.users e in
    (
      u,
      rw e refl,
      i,
      own,
      rw (upsert_again phone name other db) (rw e refl),
      upsert_again phone name other db,
    )
