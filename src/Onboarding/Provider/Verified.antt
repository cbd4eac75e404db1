-- ===== src/Onboarding/Provider/Verified.antt =====
-- onboarding.py: `verify_provider_phone` and `_apply_hours`
use twirl.Prelude.{
  ℕ, ◌≡◌, ◌≢◌, refl, ◌⊎◌, inl, inr, true, false, Option, none, some, List, [], ◌∷◌, ◌++◌, map, Text,
  text_eq_refl, ne_of_==, any-false, any, find, find-In, ◌==◌, ==-refl, if◌then◌else◌, In,
  In-append, In-append_right, Bool-cases,
}
use twirl.Model.{Db, User, UserKind, ShopHours}
use twirl.Customers.{has_phone}
use twirl.Onboarding.Provider.{
  WeeklyHours, is_renter, as_provider, put_user, store_provider, verify_provider_phone, day_hours,
  apply_day, apply_days, apply_hours,
}

-- A user who may list dresses.
pub record IsProvider (phone : Text) (now : ℕ) (u : User) (users : List User) : Type 0 where
  pub stored : In u users
  pub own_phone : has_phone phone u ≡ true
  pub no_renter : is_renter u.kind ≡ false
  pub verified : u.phone_verified_at ≡ some now

not_renter : (k : UserKind) → is_renter (if is_renter k then UserKind.shop else k) ≡ false
not_renter UserKind.renter = refl
not_renter UserKind.shop = refl
not_renter UserKind.admin = refl

put_user-hit : (v u : User) (users : List User) → v.id ≡ u.id → In u users → In v (put_user v users)
put_user-hit v u [] e i = i
put_user-hit v u (r ∷ users) e (inl q) = inl (rw (← q) (rw (← e) (rw (==-refl v.id) refl)))
put_user-hit v u (r ∷ users) e (inr i) = inr (put_user-hit v u users e i)

IsProvider-store_provider :
    (phone : Text) (now : ℕ) (found : Option User) (db : Db)
    → find (has_phone phone) db.users ≡ found
    → let (u, d) = store_provider phone now found db in IsProvider phone now u d.users
IsProvider-store_provider phone now none db e = record {
  stored = In-append_right _ db.users _ (inl refl);
  own_phone = text_eq_refl phone;
  no_renter = refl;
  verified = refl;
}
IsProvider-store_provider phone now (some u) db e =
    let (i, own) = find-In (has_phone phone) u db.users e in
    record {
      stored = put_user-hit (as_provider u now) u db.users refl i;
      own_phone = own;
      no_renter = not_renter u.kind;
      verified = refl;
    }

-- After the phone of a provider was verified, the user that is returned is stored, has that phone, is no
-- renter, and was verified now.
pub verify_provider_phone-IsProvider :
    (phone : Text) (now : ℕ) (db : Db)
    → let (u, d) = verify_provider_phone phone now db in IsProvider phone now u d.users
unfolding verify_provider_phone
verify_provider_phone-IsProvider phone now db =
    IsProvider-store_provider phone now (find (has_phone phone) db.users) db refl

module _ (h : WeeklyHours) where
  In-mapped :
      (d : ℕ) (r : ShopHours) (rows : List ShopHours)
      → In r (map (λ (x : ShopHours). if x.weekday == d then day_hours h d else x) rows)
      → (r ≡ day_hours h d) ⊎ (In r rows × (r.weekday ≢ d))
  In-mapped d r [] i = elim i [ ]
  In-mapped d r (x ∷ rows) (inl e) = elim (Bool-cases (x.weekday == d)) [
    | inl t ↦ inl (rw t at e)
    | inr f ↦ let e' : r ≡ x = rw f at e in inr (inl e', ne_of_== r.weekday d (rw e' f))
  ]
  In-mapped d r (x ∷ rows) (inr i) = elim (In-mapped d r rows i) [
    | inl e ↦ inl e
    | inr (j, ne) ↦ inr (inr j, ne)
  ]

  In-appended :
      (d : ℕ) (r : ShopHours) (rows : List ShopHours)
      → any (λ (x : ShopHours). x.weekday == d) rows ≡ false
      → In r (rows ++ day_hours h d ∷ [])
      → (r ≡ day_hours h d) ⊎ (In r rows × (r.weekday ≢ d))
  In-appended d r rows none_yet i = elim (In-append r rows (day_hours h d ∷ []) i) [
    | inl j ↦
        inr (
          j,
          ne_of_== r.weekday d (any-false (λ (x : ShopHours). x.weekday == d) r rows none_yet j),
        )
    | inr (inl e) ↦ inl e
    | inr (inr n) ↦ elim n [ ]
  ]

  In-apply_day :
      (d : ℕ) (r : ShopHours) (rows : List ShopHours)
      → In r (apply_day h d rows)
      → (r ≡ day_hours h d) ⊎ (In r rows × (r.weekday ≢ d))
  unfolding apply_day
  In-apply_day d r rows i = elim (Bool-cases (any (λ (x : ShopHours). x.weekday == d) rows)) [
    | inl e ↦ In-mapped d r rows (rw e at i)
    | inr e ↦ In-appended d r rows e (rw e at i)
  ]

  -- The rows of these days are as the form says.
  AreSet : List ℕ → List ShopHours → Type 0
  AreSet days rows = (r : ShopHours) → In r rows → In r.weekday days → r ≡ day_hours h r.weekday

  AreSet-apply_day :
      (days : List ℕ) (d : ℕ) (rows : List ShopHours)
      → AreSet days rows
      → AreSet (d ∷ days) (apply_day h d rows)
  unfolding AreSet
  AreSet-apply_day days d rows s r i j = elim (In-apply_day d r rows i) [
    | inl e ↦ cc
    | inr (k, ne) ↦ elim j [ inl e ↦ absurd (ne e) | inr l ↦ s r k l ]
  ]

  AreSet-apply_days :
      (days more : List ℕ) (rows : List ShopHours)
      → AreSet days rows
      → (r : ShopHours) → In r (apply_days h more rows)
      → In r.weekday days ⊎ In r.weekday more
      → r ≡ day_hours h r.weekday
  unfolding apply_days AreSet
  AreSet-apply_days days [] rows s r i (inl j) = s r i j
  AreSet-apply_days days [] rows s r i (inr j) = elim j [ ]
  AreSet-apply_days days (d ∷ more) rows s r i (inl j) =
      AreSet-apply_days (d ∷ days) more (apply_day h d rows) (AreSet-apply_day days d rows s) r i
        (inl (inr j))
  AreSet-apply_days days (d ∷ more) rows s r i (inr (inl e)) =
      AreSet-apply_days (d ∷ days) more (apply_day h d rows) (AreSet-apply_day days d rows s) r i
        (inl (inl e))
  AreSet-apply_days days (d ∷ more) rows s r i (inr (inr j)) =
      AreSet-apply_days (d ∷ days) more (apply_day h d rows) (AreSet-apply_day days d rows s) r i
        (inr j)

  -- Whatever hours a shop had, after the form was applied each row of a day of the week has the hours that
  -- the form gives for that day.
  pub apply_hours-day_hours :
      (rows : List ShopHours) (r : ShopHours)
      → In r (apply_hours h rows)
      → In r.weekday (0 ∷ 1 ∷ 2 ∷ 3 ∷ 4 ∷ 5 ∷ 6 ∷ [])
      → r ≡ day_hours h r.weekday
  unfolding apply_hours AreSet
  apply_hours-day_hours rows r i j =
      AreSet-apply_days [] (0 ∷ 1 ∷ 2 ∷ 3 ∷ 4 ∷ 5 ∷ 6 ∷ []) rows (λ x k n. elim n [ ]) r i (inr j)
