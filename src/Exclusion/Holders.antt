-- ===== src/Exclusion/Holders.antt =====
-- The bookings that hold an item on a day.
use twirl.Prelude.{
  ℕ, ◌≡◌, Bool, true, ◌&&◌, List, arith, ltb, leb, ◌==◌, In, In-where, where_, ℕ_discrete,
}
use twirl.Model.{Db, Booking, julian, is_active, blocked_column, excludes}
use twirl.Exclusion.Writes.{IsExclusive}

-- The active bookings that hold the item on a day: preparation, rental and cleaning days alike.
abbrev pub holds : ℕ → ℕ → Booking → Bool
holds item_id day b =
    b.item_id == item_id
    && is_active b.status
    && leb (blocked_column b).lower (julian day)
    && ltb (julian day) (blocked_column b).upper

unfoldable pub holders : ℕ → ℕ → Db → List Booking
holders item_id day db = where_ (holds item_id day) db.bookings

holding_together :
    (item_id day : ℕ) (b c : Booking)
    → holds item_id day b ≡ true
    → holds item_id day c ≡ true
    → excludes b c ≡ true
unfolding excludes
holding_together item_id day b c hb hc = ground arith

pub one_holder :
    (item_id day : ℕ) (db : Db) (b c : Booking)
    → IsExclusive db
    → In b (holders item_id day db)
    → In c (holders item_id day db)
    → b.id ≡ c.id
unfolding holders
one_holder item_id day db b c h ib ic =
    let (jb, hb) = In-where (holds item_id day) b db.bookings ib in
    let (jc, hc) = In-where (holds item_id day) c db.bookings ic in
    elim (ℕ_discrete b.id c.id) [
      | yes e ↦ e
      | no ne ↦ absurd (cc (h.apart b c jb jc ne, holding_together item_id day b c hb hc))
    ]
