-- ===== src/Availability/Free.antt =====
-- booking/availability.py: its two queries, and the exclusion constraint.
use twirl.Prelude.{
  ℕ, ◌≡◌, ◌↔◌, subst, ◌⊎◌, inl, inr, Bool-cases, Bool, true, false, not, ◌&&◌, List, [], arith,
  ◌==◌, any, any-false, any-eq-false, In, In-where, where-In, In-sort_by, sort_by-In, where_,
}
use twirl.Model.{Db, Booking, Item, is_in_use, blocked_column, excludes}
use twirl.Session.{violates}
use twirl.Availability.{
  day_range, is_in_way, by_pickup, overlapping_bookings, FreeQuery, is_free, free_items, id_matches,
  text_matches,
}

-- A booking excludes only what is in the way of its item and its window.
excludes-in_way :
    (b c : Booking) (start end : ℕ)
    → blocked_column b ≡ day_range start end
    → is_in_way b.item_id start end c ≡ false
    → excludes b c ≡ false
unfolding excludes is_in_way
excludes-in_way b c start end w h = ground arith

pub insertable :
    (b : Booking) (start end : ℕ) (rows : List Booking)
    → blocked_column b ≡ day_range start end
    → ((c : Booking) → In c rows → is_in_way b.item_id start end c ≡ false)
    → violates b rows ≡ false
insertable b start end rows w h =
    any-eq-false (λ (c : Booking). not (c.id == b.id) && excludes b c) rows
      λ c i. rw (excludes-in_way b c start end w (h c i)) (ground arith)

-- `overlapping_bookings` lists the active bookings of the item that overlap the window: those and no others.
pub overlapping_bookings_iff :
    (item_id start end : ℕ) (db : Db) (c : Booking)
    → In c (overlapping_bookings item_id start end db)
      ↔ (In c db.bookings × (is_in_way item_id start end c ≡ true))
unfolding overlapping_bookings
overlapping_bookings_iff item_id start end db c = (
  λ i.
      In-where (is_in_way item_id start end) c db.bookings
        (In-sort_by by_pickup c (where_ (is_in_way item_id start end) db.bookings) i),
  λ h.
      sort_by-In by_pickup c (where_ (is_in_way item_id start end) db.bookings)
        (where-In (is_in_way item_id start end) c db.bookings h.0 h.1),
)

-- Where nothing overlaps the window of an item, a booking that blocks just that window can be stored.
pub no_overlap-insertable :
    (b : Booking) (start end : ℕ) (db : Db)
    → blocked_column b ≡ day_range start end
    → overlapping_bookings b.item_id start end db ≡ []
    → violates b db.bookings ≡ false
no_overlap-insertable b start end db w none_found =
    insertable b start end db.bookings w
      λ c i. not_in_way c i (Bool-cases (is_in_way b.item_id start end c))
  where
    not_in_way :
        (c : Booking)
        → In c db.bookings
        → (is_in_way b.item_id start end c ≡ true) ⊎ (is_in_way b.item_id start end c ≡ false)
        → is_in_way b.item_id start end c ≡ false
    not_in_way c i (inl t) = absurd (
        subst (λ (l : List Booking). In c l) none_found
          ((overlapping_bookings_iff b.item_id start end db c).1 (i, t)))
    not_in_way c i (inr f) = f

pub record IsFree (q : FreeQuery) (db : Db) (i : Item) : Type 0 where
  pub stored : In i db.items
  pub in_use : is_in_use i.status ≡ true
  pub style : id_matches q.style_id i.style_id ≡ true
  pub shop : id_matches q.shop_id i.shop_id ≡ true
  pub size : text_matches q.size i.size ≡ true
  pub clear : (c : Booking) → In c db.bookings → is_in_way i.id q.start q.end c ≡ false

free_parts :
    (a x b c d : Bool)
    → (a && not x && b && c && d) ≡ true
    → (a ≡ true) × (x ≡ false) × (b ≡ true) × (c ≡ true) × (d ≡ true)
free_parts a x b c d h = ground arith

-- An item that `free_items_stmt` selects is in use, answers the filters, and has no active booking in the
-- window.
pub free_items-IsFree :
    (q : FreeQuery) (db : Db) (i : Item) → In i (free_items q db) → IsFree q db i
unfolding free_items is_free
free_items-IsFree q db i h =
    let (stored, t) = In-where (is_free q db.bookings) i db.items h in
    let (u, x, st, sh, sz) =
      free_parts (is_in_use i.status) (any (is_in_way i.id q.start q.end) db.bookings)
        (id_matches q.style_id i.style_id) (id_matches q.shop_id i.shop_id)
        (text_matches q.size i.size) t in
    record {
      stored = stored;
      in_use = u;
      style = st;
      shop = sh;
      size = sz;
      clear = λ c j. any-false (is_in_way i.id q.start q.end) c db.bookings x j;
    }

-- A booking of a free item that blocks just the window asked for can be stored.
pub free-insertable :
    (q : FreeQuery) (db : Db) (i : Item) (b : Booking)
    → In i (free_items q db)
    → b.item_id ≡ i.id
    → blocked_column b ≡ day_range q.start q.end
    → violates b db.bookings ≡ false
free-insertable q db i b free same w =
    insertable b q.start q.end db.bookings w
      λ c j. rw same ((free_items-IsFree q db i free).clear c j)
