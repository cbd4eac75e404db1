-- ===== src/Exclusion/Steps.antt =====
-- The steps that the operations share under the exclusion constraint: sessions, timelines, codes,
-- customers and the outbox.
use twirl.Prelude.{ℕ, zero, suc, List, [], ◌∷◌, Text}
use twirl.Exec.{Exec, nested}
use twirl.Exec.Keeps.{
  Keeps, Keeps-nested, Keeps-gets, Keeps-catch, Keeps-bind, Keeps-pure, Keeps-if, Keeps-raise,
  keeps_rules,
}
use twirl.Errors.{Error}
use twirl.Host.{Host}
use twirl.Model.{Db, Booking, BookingStatus, Actor, Template, Payload, Channel, email}
use twirl.Session.{restore}
use twirl.Timeline.{record_created, as_conflict, write_transition, transition}
use twirl.Customers.{get_or_create_customer, link_customer}
use twirl.Codes.{random_code, try_refs, new_booking_ref}
use twirl.Notify.{enqueue, notify_admin, enqueue_each, notify_shop_owners}
use twirl.Staff.{load_item, not_insertable, insert_or_conflict, load_shop, load_style}
use twirl.Exclusion.Writes.{
  IsExclusive, insert_booking-IsExclusive, update_booking-IsExclusive, load-IsExclusive,
  add_event-IsExclusive, add_condition_event-IsExclusive, restore-IsExclusive,
}

pub nested-IsExclusive :
    {A : Type 0} (m : Exec Db Error A) → Keeps IsExclusive m → Keeps IsExclusive (nested restore m)
nested-IsExclusive m k = Keeps-nested restore m restore-IsExclusive k

pub ruleset writes = (
  keeps_rules, insert_booking-IsExclusive, update_booking-IsExclusive, load-IsExclusive,
  add_event-IsExclusive, add_condition_event-IsExclusive, nested-IsExclusive,
)

-- Steps that leave the bookings alone.
pub load_item-IsExclusive : (id : ℕ) → Keeps IsExclusive (load_item id)
unfolding load_item
load_item-IsExclusive id = record { run = λ db h. h }

pub load_shop-IsExclusive : (id : ℕ) → Keeps IsExclusive (load_shop id)
unfolding load_shop
load_shop-IsExclusive id = record { run = λ db h. h }

pub load_style-IsExclusive : (id : ℕ) → Keeps IsExclusive (load_style id)
unfolding load_style
load_style-IsExclusive id = record { run = λ db h. h }

pub get_or_create_customer-IsExclusive :
    (phone name : Text) → Keeps IsExclusive (get_or_create_customer phone name)
unfolding get_or_create_customer
get_or_create_customer-IsExclusive phone name = record { run = λ db h. record { apart = h.apart } }

pub link_customer-IsExclusive : (s u : ℕ) → Keeps IsExclusive (link_customer s u)
unfolding link_customer
link_customer-IsExclusive s u = record { run = λ db h. record { apart = h.apart } }

random_code-IsExclusive : (host : Host) (n : ℕ) → Keeps IsExclusive (random_code host n)
unfolding random_code
random_code-IsExclusive host n = record { run = λ db h. record { apart = h.apart } }

try_refs-IsExclusive : (host : Host) (n : ℕ) → Keeps IsExclusive (try_refs host n)
unfolding try_refs
try_refs-IsExclusive host zero = search keeps_rules
try_refs-IsExclusive host (suc n) = Keeps-bind _ _ (random_code-IsExclusive host 6) λ ref.
    Keeps-bind _ _ (Keeps-gets _)
      λ taken. Keeps-if taken _ _ (try_refs-IsExclusive host n) (Keeps-pure ref)

pub new_booking_ref-IsExclusive : (host : Host) → Keeps IsExclusive (new_booking_ref host)
unfolding new_booking_ref
new_booking_ref-IsExclusive host = try_refs-IsExclusive host 20

enqueue-IsExclusive :
    (c : Channel) (r : Text) (t : Template) (p : Payload) → Keeps IsExclusive (enqueue c r t p)
unfolding enqueue
enqueue-IsExclusive c r t p = record { run = λ db h. record { apart = h.apart } }

pub notify_admin-IsExclusive : (t : Template) (p : Payload) → Keeps IsExclusive (notify_admin t p)
unfolding notify_admin
notify_admin-IsExclusive t p = enqueue-IsExclusive _ _ t p

enqueue_each-IsExclusive :
    (es : List Text) (t : Template) (p : Payload) → Keeps IsExclusive (enqueue_each es t p)
unfolding enqueue_each
enqueue_each-IsExclusive [] t p = search keeps_rules
enqueue_each-IsExclusive (e ∷ es) t p =
    Keeps-bind _ _ (enqueue-IsExclusive email e t p) (λ _. enqueue_each-IsExclusive es t p)

pub notify_shop_owners-IsExclusive :
    (id : ℕ) (t : Template) (p : Payload) → Keeps IsExclusive (notify_shop_owners id t p)
unfolding notify_shop_owners
notify_shop_owners-IsExclusive id t p = search (keeps_rules, enqueue_each-IsExclusive)

-- timeline.py
pub record_created-IsExclusive : (b : Booking) (a : Actor) → Keeps IsExclusive (record_created b a)
unfolding record_created
record_created-IsExclusive b a = add_event-IsExclusive _

pub as_conflict-IsExclusive : (e : Error) → Keeps IsExclusive (as_conflict e)
unfolding as_conflict
as_conflict-IsExclusive e = search keeps_rules

write_transition-IsExclusive :
    (b : Booking) (to : BookingStatus) (a : Actor) (r : Text)
    → Keeps IsExclusive (write_transition b to a r)
unfolding write_transition
write_transition-IsExclusive b to a r = search writes

pub transition-IsExclusive :
    (id : ℕ) (to : BookingStatus) (a : Actor) (r : Text) → Keeps IsExclusive (transition id to a r)
unfolding transition
transition-IsExclusive id to a r =
    search (writes, write_transition-IsExclusive, as_conflict-IsExclusive) depth 7

-- staff.py
not_insertable-IsExclusive :
    (id start end : ℕ) (e : Error) → Keeps IsExclusive (not_insertable id start end e)
unfolding not_insertable
not_insertable-IsExclusive id start end e = search keeps_rules

pub insert_or_conflict-IsExclusive :
    (b : Booking) (start end : ℕ) → Keeps IsExclusive (insert_or_conflict b start end)
unfolding insert_or_conflict
insert_or_conflict-IsExclusive b start end = search (writes, not_insertable-IsExclusive)

pub ruleset steps = (
  writes, load_item-IsExclusive, load_shop-IsExclusive, load_style-IsExclusive,
  get_or_create_customer-IsExclusive, link_customer-IsExclusive, new_booking_ref-IsExclusive,
  notify_admin-IsExclusive, notify_shop_owners-IsExclusive, record_created-IsExclusive,
  as_conflict-IsExclusive, transition-IsExclusive, insert_or_conflict-IsExclusive,
)
