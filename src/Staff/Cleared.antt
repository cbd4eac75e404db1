-- ===== src/Staff/Cleared.antt =====
-- booking/staff.py: the loop of an override over the bookings in its way.
use twirl.Prelude.{
  not_true, ℕ, ◌≡◌, ◌≢◌, refl, inl, inr, true, false, List, [], ◌∷◌, Text, is_empty, all, all-true,
  where_, In,
}
use twirl.Exec.{ok, pure, ◌>>=◌}
use twirl.Host.{Host}
use twirl.Model.{Db, Booking, Actor, blocked_column}
use twirl.Session.{replace_row, violates}
use twirl.Session.Rows.{
  Distinct, In-replace_row, replace_row-In, Distinct-replace_row, Distinct-where, Distinct-sort_by,
}
use twirl.Availability.{is_in_way, by_pickup, overlapping_bookings, day_range}
use twirl.Availability.Free.{overlapping_bookings_iff, insertable}
use twirl.Staff.Walkin.{can_displace, displace, displace_all, override, clear_way}
use twirl.Staff.Displaced.{displaced, displace_one, displaced-inactive, not_in_way}

module _ (host : Host) (actor : Actor) (reason : Text) (item_id start end : ℕ) where
  -- The rows while conflicts are displaced: those in the way are among the conflicts still to do.
  record Clearing (todo rows : List Booking) : Type 0 where
    keys : Distinct rows
    due : (c : Booking) → In c todo → In c rows
    able : (c : Booking) → In c todo → can_displace c ≡ true
    rest : (c : Booking) → In c rows → is_in_way item_id start end c ≡ true → In c todo

  clear_step :
      (c : Booking) (todo rows : List Booking)
      → ((x : Booking) → In x todo → x.id ≢ c.id)
      → Clearing (c ∷ todo) rows
      → Clearing todo (replace_row (displaced reason c) rows)
  clear_step c todo rows others s = record {
    keys = Distinct-replace_row (displaced reason c) rows s.keys;
    due = λ x i. replace_row-In (displaced reason c) x rows (s.due x (inr i)) (others x i);
    able = λ x i. s.able x (inr i);
    rest = λ x i t. elim (In-replace_row (displaced reason c) x rows i) [
      | inl e ↦
          absurd (
            cc (e, not_in_way item_id start end (displaced reason c) (displaced-inactive reason c)))
      | inr (j, ne) ↦ elim (s.rest x j t) [ inl e ↦ absurd (ne (cc)) | inr k ↦ k ]
    ];
  }

  -- Displacing every conflict raises nothing and leaves nothing in the way.
  clear_all :
      (todo : List Booking) (db : Db)
      → Distinct todo
      → Clearing todo db.bookings
      → ((displace_all host actor reason todo db).0 ≡ ok tt)
        × Clearing [] (displace_all host actor reason todo db).1.bookings
  unfolding displace_all pure ◌>>=◌
  clear_all [] db d s = (refl, s)
  clear_all (c ∷ todo) db d s =
      let (said, rows) =
        displace_one host actor reason c db s.keys (s.due c (inl refl)) (s.able c (inl refl)) in
      rw said (
        clear_all todo (displace host actor reason c db).1 d.1
          (rw rows (clear_step c todo db.bookings d.0 s)))

  Clearing-overlaps :
      (db : Db)
      → Distinct db.bookings
      → all can_displace (overlapping_bookings item_id start end db) ≡ true
      → Clearing (overlapping_bookings item_id start end db) db.bookings
  Clearing-overlaps db d able =
      let rows = overlapping_bookings item_id start end db in
      record {
        keys = d;
        due = λ c i. ((overlapping_bookings_iff item_id start end db c).0 i).0;
        able = λ c i. all-true can_displace c rows able i;
        rest = λ c i t. (overlapping_bookings_iff item_id start end db c).1 (i, t);
      }

  Distinct-overlapping_bookings :
      (db : Db) → Distinct db.bookings → Distinct (overlapping_bookings item_id start end db)
  unfolding overlapping_bookings
  Distinct-overlapping_bookings db d =
      Distinct-sort_by by_pickup (where_ (is_in_way item_id start end) db.bookings)
        (Distinct-where (is_in_way item_id start end) db.bookings d)

  clear_way-displace_all :
      (conflicts : List Booking) (db : Db)
      → all can_displace conflicts ≡ true
      → is_empty reason ≡ false
      → clear_way host actor reason conflicts db ≡ displace_all host actor reason conflicts db
  unfolding clear_way override displace_all
  clear_way-displace_all [] db able given = refl
  clear_way-displace_all (c ∷ cs) db able given = rw able (rw given refl)

  -- On bookings with distinct keys, where every booking in the way of the item and the window may be
  -- displaced and a reason is given, clearing the way raises nothing, and afterwards a booking of the item
  -- for just that window can be stored.
  pub clear_way-insertable :
      (db : Db)
      → Distinct db.bookings
      → all can_displace (overlapping_bookings item_id start end db) ≡ true
      → is_empty reason ≡ false
      → let (said, d) =
          clear_way host actor reason (overlapping_bookings item_id start end db) db in
        (said ≡ ok tt)
        × ((b : Booking)
            → b.item_id ≡ item_id
            → blocked_column b ≡ day_range start end
            → violates b d.bookings ≡ false)
  clear_way-insertable db keys able given =
      let (said, s) =
        clear_all (overlapping_bookings item_id start end db) db
          (Distinct-overlapping_bookings db keys) (Clearing-overlaps db keys able) in
      rw (clear_way-displace_all (overlapping_bookings item_id start end db) db able given) (
        said,
        λ b own window. insertable b start end _ window λ c i.
            not_true (is_in_way b.item_id start end c) λ t. elim (s.rest c i (rw own at t)) [ ],
      )
