-- ===== src/Requests/Served.antt =====
-- booking/requests.py: an attempt at a request that no other transaction disturbs.
use twirl.Prelude.{
  if◌then◌else◌, ℕ, suc, ◌≤◌, ◌≡◌, refl, sym, ap, subst, ◌∙◌, inl, Bool, true, false, not, Option,
  none, some, List, [], ◌∷◌, ◌++◌, Text, arith, first-In, In, In-where, In-sort_by, where_, sort_by,
  leb, In-append_right,
}
use twirl.Exec.{Exec, Result, ok, err, pure, gets, catch, nested, ◌>>=◌}
use twirl.Exec.Holds.{Ends, Holds, Holds-pure, Holds-bind}
use twirl.Errors.{Error}
use twirl.Host.{Host}
use twirl.Model.{
  Shop, BookingMode, BookingStatus, is_instant, confirmed, pending_shop, Db, Booking, Actor, Item,
  Template, Payload, Channel, email,
}
use twirl.Session.{ref_taken, item_exists, user_exists, insert_error, insert_booking, add_event}
use twirl.Timeline.{record_created}
use twirl.Customers.{link_customer}
use twirl.Codes.{new_booking_ref}
use twirl.Codes.Fresh.{new_booking_ref-fresh, IsFreshRef, GaveUp}
use twirl.Notify.{enqueue, enqueue_each, notify_admin, notify_shop_owners}
use twirl.Availability.{free_items}
use twirl.Availability.Free.{free-insertable}
use twirl.Dates.{blocked_range}
use twirl.Dates.Validate.{blocked_range-blocked_column}
use twirl.Requests.{
  RentalRequest, Rivals, Plan, plan_query, pick_item, first_status, new_request, others_commit,
  try_insert, link_if, announce, after_insert, round_with, round, attempts,
}

-- An action that cannot raise and leaves the bookings as they are.
module _ (rows : List Booking) where
  abbrev Still : Db → Type 0
  Still db = db.bookings ≡ rows

  abbrev IsQuiet : {A : Type 0} → Exec Db Error A → Type 0
  IsQuiet m = Holds Still m (λ _. Still) (λ _ _. ⊥)

  enqueue-IsQuiet :
      (c : Channel) (r : Text) (t : Template) (p : Payload) → IsQuiet (enqueue c r t p)
  unfolding enqueue
  enqueue-IsQuiet c r t p = record { run = λ db h. h }

  enqueue_each-IsQuiet :
      (es : List Text) (t : Template) (p : Payload) → IsQuiet (enqueue_each es t p)
  unfolding enqueue_each
  enqueue_each-IsQuiet [] t p = record { run = λ db h. unfold pure in h }
  enqueue_each-IsQuiet (e ∷ es) t p =
      Holds-bind Still (enqueue email e t p) (λ _. Still) _ _ _ (enqueue-IsQuiet email e t p)
        (λ _. enqueue_each-IsQuiet es t p)

  gets-IsQuiet : {A : Type 0} (f : Db → A) → IsQuiet (gets f)
  unfolding gets
  gets-IsQuiet f = record { run = λ db h. h }

  after :
      {A B : Type 0} (m : Exec Db Error A) (f : A → Exec Db Error B) (Q : B → Db → Type 0)
      → IsQuiet m
      → ((a : A) → Holds Still (f a) Q (λ _ _. ⊥))
      → Holds Still (m >>= f) Q (λ _ _. ⊥)
  after m f Q hm hf = Holds-bind Still m (λ _. Still) f Q (λ _ _. ⊥) hm hf

  record_created-IsQuiet : (b : Booking) (a : Actor) → IsQuiet (record_created b a)
  unfolding record_created add_event
  record_created-IsQuiet b a = record { run = λ db h. h }

  link_if-IsQuiet : (s : ℕ) (o : Option ℕ) → IsQuiet (link_if s o)
  unfolding link_if link_customer
  link_if-IsQuiet s none = record { run = λ db h. unfold pure in h }
  link_if-IsQuiet s (some id) = record { run = λ db h. h }

  notify_shop_owners-IsQuiet :
      (id : ℕ) (t : Template) (p : Payload) → IsQuiet (notify_shop_owners id t p)
  unfolding notify_shop_owners
  notify_shop_owners-IsQuiet id t p =
      after _ _ _ (gets-IsQuiet _) (λ emails. enqueue_each-IsQuiet emails t p)

  notify_admin-IsQuiet : (t : Template) (p : Payload) → IsQuiet (notify_admin t p)
  unfolding notify_admin
  notify_admin-IsQuiet t p = enqueue-IsQuiet _ _ t p

  -- What follows the insert cannot raise, and the stored row is what the caller gets.
  announce_row :
      (host : Host) (row : Booking)
      → Holds Still (announce host row) (λ r db. (r ≡ row) × (db.bookings ≡ rows)) (λ _ _. ⊥)
  unfolding announce
  announce_row host row = after _ _ _ (record_created-IsQuiet row _) λ _.
      after _ _ _ (link_if-IsQuiet row.shop_id row.customer_id) λ _.
        after _ _ _ (gets-IsQuiet _) λ p.
          after _ _ _ (notify_shop_owners-IsQuiet row.shop_id _ p) λ _.
            after _ _ _ (notify_admin-IsQuiet _ p) λ _. Holds-pure Still row _ _ (λ db h. (refl, h))

-- What `pick_item` picks is free for the request, and not locked.
pub pick_item-free :
    (p : Plan) (locked : ℕ → Bool) (db : Db) (i : Item)
    → pick_item p locked db ≡ some i
    → In i (free_items (plan_query p) db) × (locked i.id ≡ false)
unfolding pick_item
pick_item-free p locked db i h =
    let free = free_items (plan_query p) db in
    let unlocked = λ (j : Item). not (locked j.id) in
    let j = first-In i (sort_by (λ a b. leb a.id b.id) (where_ unlocked free)) h in
    let (k, u) = In-where unlocked i free (In-sort_by _ i (where_ unlocked free) j) in
    (k, ground arith)

-- The facts about the stored data that the foreign keys and checks of the schema ask of a request.
pub record CanStore (p : Plan) (db : Db) (req : RentalRequest) (i : Item) (customer_id : ℕ)
    : Type 0 where
  pub ordered : p.dates.pickup ≤ p.dates.return_
  pub window : blocked_range p.dates p.shop.prep_days p.shop.cleaning_days ≡ ok (p.start, p.end)
  pub item : (ref : Text) → item_exists (new_request ref req p i.id customer_id) db.items ≡ true
  pub customer : user_exists (some customer_id) db.users ≡ true

abbrev pub stored_as : Text → RentalRequest → Plan → ℕ → ℕ → Db → Booking
stored_as ref req p item_id customer_id db = record (new_request ref req p item_id customer_id) {
  id = db.booking_seq;
  created_at = db.now;
}

module _ (p : Plan) (db : Db) (req : RentalRequest) (i : Item) (customer_id : ℕ) where
  no_insert_error :
      (ref : Text)
      → CanStore p db req i customer_id
      → In i (free_items (plan_query p) db)
      → ref_taken ref db.bookings ≡ false
      → insert_error (stored_as ref req p i.id customer_id db) db ≡ none
  no_insert_error ref c free fresh =
      let row = stored_as ref req p i.id customer_id db in
      let window = blocked_range-blocked_column row p.start p.end c.window in
      let v = free-insertable (plan_query p) db i row free refl window in
      ground (arith, c.ordered, c.item ref, c.customer)

-- The status that the shop's booking mode gives to a request.
abbrev pub HasModeStatus : BookingMode → BookingStatus → Type 0
HasModeStatus BookingMode.instant status = status ≡ confirmed
HasModeStatus BookingMode.request status = status ≡ pending_shop

first_status-HasModeStatus : (shop : Shop) → HasModeStatus shop.booking_mode (first_status shop)
first_status-HasModeStatus shop = of_mode shop.booking_mode
  where
    of_mode : (m : BookingMode) → HasModeStatus m (if is_instant m then confirmed else pending_shop)
    of_mode BookingMode.instant = refl
    of_mode BookingMode.request = refl

-- The stored row: the item, the style, the renter, the dates and the price of the request.
pub record FitsPlan (p : Plan) (req : RentalRequest) (item_id customer_id : ℕ) (row : Booking)
    : Type 0 where
  pub item : row.item_id ≡ item_id
  pub style : row.style_id ≡ p.style.id
  pub shop : row.shop_id ≡ p.shop.id
  pub customer : row.customer_id ≡ some customer_id
  pub event : row.event_date ≡ some req.event_date
  pub pickup : row.pickup_date ≡ p.dates.pickup
  pub return_ : row.return_date ≡ p.dates.return_
  pub price : row.price_cents ≡ p.style.price_cents
  pub status : HasModeStatus p.shop.booking_mode row.status

returns :
    {A : Type 0} (Q : A → Db → Type 0) (r : Result Error A) (db : Db)
    → Ends Q (λ _ _. ⊥) (r, db)
    → (a : A) × (r ≡ ok a) × Q a db
returns Q (ok a) db h = (a, refl, h)
returns Q (err e) db h = elim h [ ]

abbrev pub after_row : Booking → Db → Db
after_row row db = record db {
  bookings = db.bookings ++ row ∷ [];
  booking_seq = suc db.booking_seq;
}

pub try_insert_free :
    (b : Booking) (db : Db)
    → insert_error (record b { id = db.booking_seq; created_at = db.now }) db ≡ none
    → try_insert b db ≡ (
      ok (some (record b { id = db.booking_seq; created_at = db.now })),
      after_row (record b { id = db.booking_seq; created_at = db.now }) db,
    )
unfolding try_insert insert_booking ◌>>=◌ catch nested
try_insert_free b db h = rw h

pub announced :
    (host : Host) (row : Booking) (db : Db)
    → ((announce host row db).0 ≡ ok row) × ((announce host row db).1.bookings ≡ db.bookings)
announced host row db =
    let end = announce host row db in
    let (r, e, q) =
      returns (λ r d. (r ≡ row) × (d.bookings ≡ db.bookings)) end.0 end.1
        ((announce_row db.bookings host row).run db refl) in
    (e ∙ ap ok q.0, q.1)

module _ (host : Host) (rivals : Rivals) (req : RentalRequest) (p : Plan) (customer_id n : ℕ)
    (db : Db) where
  attempts_step :
      (i : Item) (ref : Text) (d : Db)
      → pick_item p (rivals.locks n) db ≡ some i
      → new_booking_ref host db ≡ (ok ref, d)
      → rivals.commits n d ≡ d
      → insert_error (stored_as ref req p i.id customer_id d) d ≡ none
      → attempts host rivals req p customer_id (suc n) db
        ≡ announce host
            (stored_as ref req p i.id customer_id d)
            (after_row (stored_as ref req p i.id customer_id d) d)
  unfolding attempts round round_with others_commit after_insert ◌>>=◌
  attempts_step i ref d picked drew still clean =
      rw picked
        (rw drew (rw still (rw (try_insert_free (new_request ref req p i.id customer_id) d clean))))

  -- Where an item was picked, a reference was drawn, nobody commits before the flush and the row meets the
  -- keys and checks of the schema, the request is served at the first attempt: the booking is stored, on
  -- that item, for the style, the renter, the dates and the price of the request, and it is confirmed in a
  -- shop with instant bookings and pending in any other.
  pub request_served :
      (i : Item) (ref : Text) (d : Db)
      → pick_item p (rivals.locks n) db ≡ some i
      → new_booking_ref host db ≡ (ok ref, d)
      → rivals.commits n d ≡ d
      → CanStore p db req i customer_id
      → let end = attempts host rivals req p customer_id (suc n) db in
        (row : Booking) × (end.0 ≡ ok row)
        × FitsPlan p req i.id customer_id row
        × In row end.1.bookings
  request_served i ref d picked drew still c =
      let (only_drawn, fresh, code) =
        subst (Ends (IsFreshRef db) (GaveUp db)) drew (new_booking_ref-fresh host db) in
      let free = (pick_item-free p (rivals.locks n) db i picked).0 in
      let clean =
        subst (λ (x : Db). insert_error (stored_as ref req p i.id customer_id x) x ≡ none)
          (sym only_drawn) (no_insert_error p db req i customer_id ref c free fresh) in
      let row = stored_as ref req p i.id customer_id d in
      let (said, kept) = announced host row (after_row row d) in
      rw (attempts_step i ref d picked drew still clean) (
        row,
        said,
        record {
          item = refl;
          style = refl;
          shop = refl;
          customer = refl;
          event = refl;
          pickup = refl;
          return_ = refl;
          price = refl;
          status = first_status-HasModeStatus p.shop;
        },
        rw kept (In-append_right row d.bookings (row ∷ []) (inl refl)),
      )
