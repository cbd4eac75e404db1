-- ===== src/Requests/Stored.antt =====
-- booking/requests.py: what `create_request` has stored where it returns, whatever the other transactions do.
use twirl.Prelude.{
  List, ◌++◌, subst, ap, Text, subst, ap, Text, subst, ap, Text, subst, ap, Text, subst, ap, Text,
  ℕ, zero, suc, ◌≡◌, refl, sym, ◌∙◌, inl, inr, true, Option, none, some, [], ◌∷◌, find, find-In,
  eq_of_==, Bool-cases, Option-cases, ◌==◌,
}
use twirl.Exec.{Result-cases, Exec, Result, ok, err, pure, raise, gets, lift, catch, nested, ◌>>=◌}
use twirl.Exec.Holds.{Ends, Ends-bind}
use twirl.Errors.{Error, is_exclusion_violation}
use twirl.Host.{Host, normalize_phone}
use twirl.Sizes.{normalize_size}
use twirl.Dates.{derive_rental_dates, validate_rental_dates, blocked_range, rules_for_shop}
use twirl.Model.{Db, Booking, online, Item, Shop, Style, is_published}
use twirl.Session.{insert_error, insert_booking, one}
use twirl.Codes.{new_booking_ref}
use twirl.Customers.{get_or_create_customer}
use twirl.Requests.{
  RentalRequest, Rivals, Plan, bookable_style, make_plan, pick_item, new_request, others_commit,
  try_insert, lost_race, announce, after_insert, round_with, round, attempts, create_request,
}
use twirl.Requests.Served.{announced, try_insert_free}

-- A new row at the end of the table: an online booking of the style for the event date of the request.
pub record IsRequested (style_id event_date : ℕ) (row : Booking) (db : Db) : Type 0 where
  pub before : List Booking
  pub stored : db.bookings ≡ before ++ row ∷ []
  pub style : row.style_id ≡ style_id
  pub event : row.event_date ≡ some event_date
  pub online_kind : row.kind ≡ online

-- What an action ensures where it returns.
abbrev Gives : {A : Type 0} → (A → Db → Type 0) → Result Error A × Db → Type 0
Gives Q x = Ends Q (λ e d. Unit) x

abbrev Anything : {A : Type 0} → A → Db → Type 0
Anything a d = Unit

anything : {A : Type 0} (x : Result Error A × Db) → Gives Anything x
anything (ok a, d) = tt
anything (err e, d) = tt

then_gives :
    {A B : Type 0} (Q : A → Db → Type 0) (R : B → Db → Type 0) (m : Exec Db Error A)
    (f : A → Exec Db Error B) (db : Db)
    → Gives Q (m db)
    → ((a : A) (d : Db) → Q a d → Gives R (f a d))
    → Gives R ((m >>= f) db)
then_gives Q R m f db h hf = Ends-bind Q (λ e d. Unit) (λ e d. Unit) m f R db (λ e d u. u) h hf

returned :
    {A : Type 0} (Q : A → Db → Type 0) (a : A) (x : Result Error A × Db)
    → x.0 ≡ ok a
    → Q a x.1
    → Gives Q x
returned Q a (ok b, d) e q = let same : a ≡ b = cc in subst (λ c. Q c d) same q
returned Q a (err x, d) e q = tt

-- The row that a try of the insert has stored, where it has.
abbrev Inserted : Booking → Option Booking → Db → Type 0
Inserted b none d = Unit
Inserted b (some row) d =
    ((before : List Booking) × (d.bookings ≡ before ++ row ∷ []))
    × (row ≡ record b { id = row.id; created_at = row.created_at })

refused_insert :
    (b : Booking) (db : Db) (x : Error)
    → insert_error (record b { id = db.booking_seq; created_at = db.now }) db ≡ some x
    → Gives (Inserted b) (try_insert b db)
unfolding try_insert insert_booking ◌>>=◌ catch nested lost_race pure raise
refused_insert b db x e = elim (Bool-cases (is_exclusion_violation x)) [
  | inl t ↦ rw (e, t) tt
  | inr t ↦ rw (e, t) tt
]

try_insert-Inserted : (b : Booking) (db : Db) → Gives (Inserted b) (try_insert b db)
try_insert-Inserted b db =
    let row = record b { id = db.booking_seq; created_at = db.now } in
    elim (Option-cases (insert_error row db)) [
      | inl e ↦ rw (try_insert_free b db e) ((db.bookings, refl), refl)
      | inr (x, e) ↦ refused_insert b db x e
    ]

module _ (host : Host) (rivals : Rivals) (req : RentalRequest) (p : Plan) (customer_id : ℕ) where
  abbrev Served : Booking → Db → Type 0
  Served = IsRequested p.style.id req.event_date

  announce-Served :
      (ref : Text) (item_id : ℕ) (row : Booking) (db : Db)
      → Inserted (new_request ref req p item_id customer_id) (some row) db
      → Gives Served (announce host row db)
  announce-Served ref item_id row db (i, same) =
      let (said, kept) = announced host row db in
      returned Served row (announce host row db) said (record {
        before = i.0;
        stored = kept ∙ i.1;
        style = ap (λ (b : Booking). b.style_id) same;
        event = ap (λ (b : Booking). b.event_date) same;
        online_kind = ap (λ (b : Booking). b.kind) same;
      })

  after_insert-Served :
      (ref : Text) (item_id : ℕ) (again : Exec Db Error Booking) (o : Option Booking) (db : Db)
      → ((d : Db) → Gives Served (again d))
      → Inserted (new_request ref req p item_id customer_id) o db
      → Gives Served (after_insert host again o db)
  unfolding after_insert
  after_insert-Served ref item_id again none db more h = more db
  after_insert-Served ref item_id again (some row) db more h = announce-Served ref item_id row db h

  round-Served :
      (commits : Db → Db) (again : Exec Db Error Booking) (o : Option Item) (db : Db)
      → ((d : Db) → Gives Served (again d))
      → Gives Served (round host req p customer_id commits again o db)
  unfolding round round_with raise
  round-Served commits again none db more = tt
  round-Served commits again (some item) db more =
      then_gives Anything Served _ _ db (anything (new_booking_ref host db)) λ ref d u.
        then_gives Anything Served _ _ d (anything (others_commit commits d)) λ v d' w.
          let b = new_request ref req p item.id customer_id in
          then_gives (Inserted b) Served (try_insert b) _ d' (try_insert-Inserted b d')
            λ o d'' h. after_insert-Served ref item.id again o d'' more h

  attempts-Served : (n : ℕ) (db : Db) → Gives Served (attempts host rivals req p customer_id n db)
  unfolding attempts raise
  attempts-Served zero db = tt
  attempts-Served (suc n) db =
      then_gives Anything Served _ _ db (anything (gets (pick_item p (rivals.locks n)) db))
        λ picked d u. round-Served (rivals.commits n) _ picked d (attempts-Served n)

is_error : (x : Error) (p : Plan) → ◌≡◌ {A = Result Error Plan} (err x) (ok p) → ⊥
is_error x p h = cc

style_in : {a b : Plan} (st : Style) → ◌≡◌ {A = Result Error Plan} (ok a) (ok b) → a.style ≡ b.style
style_in st h =
    ap (λ (r : Result Error Plan). elim r as (λ _. Style) [ ok q ↦ q.style | err x ↦ st ]) h

style_of_plan :
    (host : Host) (req : RentalRequest) (today : ℕ) (st : Style) (shop : Shop) (p : Plan)
    → make_plan host req today (st, shop) ≡ ok p
    → p.style ≡ st
unfolding make_plan
style_of_plan host req today st shop p h =
    let rules = rules_for_shop shop in
    elim (Result-cases (derive_rental_dates req.event_date rules)) [
      | inr (x, e) ↦ absurd (is_error x p (rw (make_plan, e) at h))
      | inl (dates, e) ↦
          elim (Result-cases (validate_rental_dates dates rules today (some req.event_date))) [
            | inr (x, f) ↦ absurd (is_error x p (rw (make_plan, e, f) at h))
            | inl (u, f) ↦
                elim (Result-cases (blocked_range dates rules.prep_days rules.cleaning_days)) [
                  | inr (x, g) ↦ absurd (is_error x p (rw (make_plan, e, f, g) at h))
                  | inl (window, g) ↦ elim (Result-cases (normalize_size host req.size)) [
                    | inr (x, k) ↦ absurd (is_error x p (rw (make_plan, e, f, g, k) at h))
                    | inl (size, k) ↦ elim (Result-cases (normalize_phone host req.phone)) [
                      | inr (x, l) ↦ absurd (is_error x p (rw (make_plan, e, f, g, k, l) at h))
                      | inl (phone, l) ↦ sym (style_in st (rw (make_plan, e, f, g, k, l) at h))
                    ]
                  ]
                ]
          ]
    ]

pair_in :
    {a b : Style × Shop} (s : Style)
    → ◌≡◌ {A = Result Error (Style × Shop)} (ok a) (ok b)
    → a.0 ≡ b.0
pair_in s h =
    ap (λ (r : Result Error (Style × Shop)). elim r as (λ _. Style) [ ok q ↦ q.0 | err x ↦ s ]) h

-- A style that can be booked is the one that was asked for.
bookable_style-id :
    (id : ℕ) (db : Db) (st : Style) (shop : Shop)
    → bookable_style id db ≡ ok (st, shop)
    → st.id ≡ id
unfolding bookable_style
bookable_style-id id db st shop h =
    elim (Option-cases (find (λ (s : Style). s.id == id) db.styles)) [
      | inl e ↦ let wrong = rw (bookable_style, e) at h in cc
      | inr (s, e) ↦
          let (i, t) = find-In (λ (s : Style). s.id == id) s db.styles e in
          elim (Option-cases s.deleted_at) [
            | inr (at, g) ↦ let wrong = rw (bookable_style, e, g) at h in cc
            | inl g ↦ elim (Bool-cases s.published) [
              | inr k ↦ let wrong = rw (bookable_style, e, g, k) at h in cc
              | inl k ↦
                  elim (Result-cases (one (find (λ (o : Shop). o.id == s.shop_id) db.shops))) [
                    | inr (x, l) ↦ let wrong = rw (bookable_style, e, g, k, l) at h in cc
                    | inl (owner, l) ↦ elim (Bool-cases (is_published owner.status)) [
                      | inr n ↦ let wrong = rw (bookable_style, e, g, k, l, n) at h in cc
                      | inl n ↦
                          let own : record s { published = true } ≡ st =
                            pair_in {a = (record s { published = true }, owner)} {b = (st, shop)} s
                              (rw (bookable_style, e, g, k, l, n) at h) in
                          rw (sym own) (eq_of_== s.id id t)
                    ]
                  ]
            ]
          ]
    ]

planned_request :
    (host : Host) (rivals : Rivals) (req : RentalRequest) (today n : ℕ) (db : Db) (st : Style)
    (shop : Shop) (p : Plan)
    → bookable_style req.style_id db ≡ ok (st, shop)
    → make_plan host req today (st, shop) ≡ ok p
    → create_request host rivals req today n db
      ≡ (get_or_create_customer p.phone req.name >>= λ customer.
            attempts host rivals req p customer.id n)
          db
unfolding create_request ◌>>=◌ gets lift
planned_request host rivals req today n db st shop p e f = rw (e, f) refl

unbookable_request :
    (host : Host) (rivals : Rivals) (req : RentalRequest) (today n : ℕ) (db : Db) (x : Error)
    → bookable_style req.style_id db ≡ err x
    → create_request host rivals req today n db ≡ (err x, db)
unfolding create_request ◌>>=◌ gets lift
unbookable_request host rivals req today n db x e = rw e refl

unplanned_request :
    (host : Host) (rivals : Rivals) (req : RentalRequest) (today n : ℕ) (db : Db) (t : Style × Shop)
    (x : Error)
    → bookable_style req.style_id db ≡ ok t
    → make_plan host req today t ≡ err x
    → create_request host rivals req today n db ≡ (err x, db)
unfolding create_request ◌>>=◌ gets lift
unplanned_request host rivals req today n db t x e f = rw (e, f) refl

-- A request that returns a booking has stored it: an online booking of the style that was asked for, for the
-- event date that was asked for.
pub create_request-IsRequested :
    (host : Host) (rivals : Rivals) (req : RentalRequest) (today n : ℕ) (db : Db)
    → Gives (IsRequested req.style_id req.event_date) (create_request host rivals req today n db)
create_request-IsRequested host rivals req today n db =
    elim (Result-cases (bookable_style req.style_id db)) [
      | inr (x, e) ↦ rw (unbookable_request host rivals req today n db x e) tt
      | inl ((st, shop), e) ↦ elim (Result-cases (make_plan host req today (st, shop))) [
        | inr (x, f) ↦ rw (unplanned_request host rivals req today n db (st, shop) x e f) tt
        | inl (p, f) ↦
            let id : p.style.id ≡ req.style_id =
              ap (λ (s : Style). s.id) (style_of_plan host req today st shop p f)
              ∙ bookable_style-id req.style_id db st shop e in
            let all : (c : ℕ) (d : Db)
                → Gives (IsRequested req.style_id req.event_date)
                    (attempts host rivals req p c n d) =
              λ c d.
                subst
                  (λ (x : ℕ).
                    Gives (IsRequested x req.event_date) (attempts host rivals req p c n d))
                  id (attempts-Served host rivals req p c n d) in
            rw (planned_request host rivals req today n db st shop p e f) (
              then_gives Anything (IsRequested req.style_id req.event_date) _ _ db
                (anything (get_or_create_customer p.phone req.name db))
                λ customer d u. all customer.id d)
      ]
    ]

-- where it returns, in so many words
pub created-IsRequested :
    (host : Host) (rivals : Rivals) (req : RentalRequest) (today n : ℕ) (db d : Db) (b : Booking)
    → create_request host rivals req today n db ≡ (ok b, d)
    → IsRequested req.style_id req.event_date b d
created-IsRequested host rivals req today n db d b e =
    rw e at (create_request-IsRequested host rivals req today n db)
