-- ===== src/Exclusion/Writes.antt =====
-- The invariant behind "never double-book a dress" (models/bookings.py), and the writes of the session.
use twirl.Prelude.{
  ℕ, suc, ◌≡◌, ◌≢◌, refl, ◌⊎◌, inl, inr, Bool, false, not, ◌&&◌, Option, none, some, List, [], ◌∷◌,
  ◌++◌, arith, ◌==◌, Bool-cases, In, In-append, any-false, ==-ne,
}
use twirl.Exec.Keeps.{Keeps}
use twirl.Errors.{Error}
use twirl.Model.{Db, Booking, BookingEvent, ItemConditionEvent, excludes, excludes_comm}
use twirl.Session.{
  violates, insert_error, update_error, insert_row, update_row, replace_row, restore,
  insert_booking, load, update_booking, add_event, add_condition_event,
}
use twirl.Session.Rows.{In-replace_row}

pub record IsExclusive (db : Db) : Type 0 where
  pub apart :
      (b c : Booking) → In b db.bookings → In c db.bookings → b.id ≢ c.id → excludes b c ≡ false

excludes_sym : (b c : Booking) → excludes b c ≡ false → excludes c b ≡ false
excludes_sym b c h = elim (Bool-cases (excludes c b)) [
  | inl t ↦ absurd (cc (excludes_comm c b t))
  | inr f ↦ f
]

-- A row that violates nothing is apart from every other row.
apart_of_violates :
    (b c : Booking) (rows : List Booking)
    → violates b rows ≡ false
    → In c rows
    → c.id ≢ b.id
    → excludes b c ≡ false
apart_of_violates b c rows v i ne = ground (
  arith,
  ==-ne c.id b.id ne,
  any-false (λ (x : Booking). not (x.id == b.id) && excludes b x) c rows v i,
)

-- Where a row that violates nothing joins the table, or takes the place of a row, all stay apart.
apart_with :
    (b : Booking) (db : Db)
    → violates b db.bookings ≡ false
    → IsExclusive db
    → (x y : Booking) → x.id ≢ y.id
    → (x ≡ b) ⊎ In x db.bookings
    → (y ≡ b) ⊎ In y db.bookings
    → excludes x y ≡ false
apart_with b db free h x y ne (inl e) (inl e') = absurd (ne (cc))
apart_with b db free h x y ne (inl e) (inr i) =
    rw e (apart_of_violates b y db.bookings free i (λ q. ne (cc)))
apart_with b db free h x y ne (inr i) (inl e) =
    rw e (excludes_sym b x (apart_of_violates b x db.bookings free i (λ q. ne (cc))))
apart_with b db free h x y ne (inr i) (inr j) = h.apart x y i j ne

from_append : (b x : Booking) (rows : List Booking) → In x (rows ++ b ∷ []) → (x ≡ b) ⊎ In x rows
from_append b x rows i = elim (In-append x rows (b ∷ []) i) [
  | inl l ↦ inr l
  | inr (inl e) ↦ inl e
  | inr (inr f) ↦ elim f [ ]
]

from_replace :
    (b x : Booking) (rows : List Booking) → In x (replace_row b rows) → (x ≡ b) ⊎ In x rows
from_replace b x rows i = elim (In-replace_row b x rows i) [ inl e ↦ inl e | inr (j, ne) ↦ inr j ]

insert_error-free :
    (b : Booking) (db : Db) → insert_error b db ≡ none → violates b db.bookings ≡ false
insert_error-free b db h = ground arith

update_error-free :
    (moved : Bool) (b : Booking) (db : Db)
    → update_error moved b db ≡ none
    → violates b db.bookings ≡ false
update_error-free moved b db h = ground arith

insert_row-IsExclusive :
    (e : Option Error) (b : Booking) (db d : Db)
    → insert_error b d ≡ e
    → d.bookings ≡ db.bookings
    → IsExclusive db
    → IsExclusive (insert_row e b db).1
unfolding insert_booking
insert_row-IsExclusive none b db d he same h = record {
  apart = λ x y i j ne.
      apart_with b db (rw (← same) (insert_error-free b d he)) h x y ne
        (from_append b x db.bookings i) (from_append b y db.bookings j);
}
insert_row-IsExclusive (some e) b db d he same h = h

update_row-IsExclusive :
    (e : Option Error) (moved : Bool) (b : Booking) (db : Db)
    → update_error moved b db ≡ e
    → IsExclusive db
    → IsExclusive (update_row e b db).1
unfolding update_booking
update_row-IsExclusive none moved b db he h = record {
  apart = λ x y i j ne.
      apart_with b db (update_error-free moved b db he) h x y ne (from_replace b x db.bookings i)
        (from_replace b y db.bookings j);
}
update_row-IsExclusive (some e) moved b db he h = h

pub insert_booking-IsExclusive : (b : Booking) → Keeps IsExclusive (insert_booking b)
unfolding insert_booking
insert_booking-IsExclusive b = record {
  run = λ db h.
      let row = record b { id = db.booking_seq; created_at = db.now } in
      insert_row-IsExclusive (insert_error row db) row
        (record db { booking_seq = suc db.booking_seq }) db refl refl (record { apart = h.apart });
}

pub update_booking-IsExclusive :
    (moved : Bool) (b : Booking) → Keeps IsExclusive (update_booking moved b)
unfolding update_booking
update_booking-IsExclusive moved b = record {
  run = λ db h. update_row-IsExclusive (update_error moved b db) moved b db refl h;
}

pub load-IsExclusive : (id : ℕ) → Keeps IsExclusive (load id)
unfolding load
load-IsExclusive id = record { run = λ db h. h }

pub add_event-IsExclusive : (e : BookingEvent) → Keeps IsExclusive (add_event e)
unfolding add_event
add_event-IsExclusive e = record { run = λ db h. record { apart = h.apart } }

pub add_condition_event-IsExclusive :
    (e : ItemConditionEvent) → Keeps IsExclusive (add_condition_event e)
unfolding add_condition_event
add_condition_event-IsExclusive e = record { run = λ db h. record { apart = h.apart } }

-- A savepoint gives back rows that were exclusive before.
pub restore-IsExclusive : (db d : Db) → IsExclusive db → IsExclusive (restore db d)
restore-IsExclusive db d h = record { apart = h.apart }
