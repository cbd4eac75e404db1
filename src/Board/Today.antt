-- ===== src/Board/Today.antt =====
-- The lists of the day's board.
use twirl.Prelude.{
  ℕ, ◌≤◌, ◌≡◌, ◌↔◌, ◌⊎◌, inl, inr, Bool, true, false, ◌&&◌, arith, ltb, ◌==◌, In, In-where,
  where-In, In-sort_by, sort_by-In, where_, Bool-cases,
}
use twirl.Model.{Db, Booking, is_block, same_status, same_status_refl, eq_of_same_status, confirmed}
use twirl.Board.{of_shop, by_key, shop_bookings, today_board}

shop_bookings_iff :
    (shop_id : ℕ) (condition : Booking → Bool) (key : Booking → ℕ) (db : Db) (c : Booking)
    → In c (shop_bookings shop_id condition key db)
      ↔ (In c db.bookings × (of_shop shop_id condition c ≡ true))
unfolding shop_bookings
shop_bookings_iff shop_id condition key db c = (
  λ i.
      In-where (of_shop shop_id condition) c db.bookings
        (In-sort_by (by_key key) c (where_ (of_shop shop_id condition) db.bookings) i),
  λ h.
      sort_by-In (by_key key) c (where_ (of_shop shop_id condition) db.bookings)
        (where-In (of_shop shop_id condition) c db.bookings h.0 h.1),
)

-- What the shop still has to hand over today: a booking of the shop that is no block, is confirmed, and
-- was to be picked up by today.
abbrev pub AwaitsPickup : (shop_id today : ℕ) → Booking → Type 0
AwaitsPickup shop_id today c =
    (c.shop_id ≡ shop_id)
    × (is_block c.kind ≡ false)
    × (c.status ≡ confirmed)
    × (c.pickup_date ≤ today)

module _ (shop_id today : ℕ) (db : Db) (c : Booking) where
  abbrev due_today : Booking → Bool
  due_today b = same_status b.status confirmed && b.pickup_date == today

  abbrev overdue : Booking → Bool
  overdue b = same_status b.status confirmed && ltb b.pickup_date today

  awaits :
      AwaitsPickup shop_id today c
      → (of_shop shop_id due_today c ≡ true) ⊎ (of_shop shop_id overdue c ≡ true)
  awaits (shop, kind, status, date) = elim (Bool-cases (c.pickup_date == today)) [
    | inl e ↦ inl (rw status (rw (same_status_refl confirmed) (ground arith)))
    | inr e ↦ inr (rw status (rw (same_status_refl confirmed) (ground arith)))
  ]

  awaits_today : of_shop shop_id due_today c ≡ true → AwaitsPickup shop_id today c
  awaits_today h = (
    ground arith,
    ground arith,
    eq_of_same_status c.status confirmed (ground arith),
    ground arith,
  )

  awaits_overdue : of_shop shop_id overdue c ≡ true → AwaitsPickup shop_id today c
  awaits_overdue h = (
    ground arith,
    ground arith,
    eq_of_same_status c.status confirmed (ground arith),
    ground arith,
  )

  -- A booking stands in the board's pickups of today or in its overdue pickups exactly when it is a stored
  -- booking of the shop that still awaits its pickup, today or before.
  pub pickups_iff :
      (In c (today_board shop_id today db).pickups_today
        ⊎ In c (today_board shop_id today db).overdue_pickups)
      ↔ (In c db.bookings × AwaitsPickup shop_id today c)
  unfolding today_board
  pickups_iff = (
    λ h. elim h [
      | inl i ↦ let (j, t) = (shop_bookings_iff shop_id due_today _ db c).0 i in (j, awaits_today t)
      | inr i ↦ let (j, t) = (shop_bookings_iff shop_id overdue _ db c).0 i in (j, awaits_overdue t)
    ],
    λ (i, a). elim (awaits a) [
      | inl t ↦ inl ((shop_bookings_iff shop_id due_today _ db c).1 (i, t))
      | inr t ↦ inr ((shop_bookings_iff shop_id overdue _ db c).1 (i, t))
    ],
  )
