-- ===== src/Backoffice/Isolated.antt =====
-- web/shop_catalog.py and web/shop_settings.py: the rows of the other shops, under the operations that the forms call.
use twirl.Prelude.{
  ℕ, zero, suc, Bool, false, Option, none, some, List, [], ◌∷◌, map, Text, ◌≡◌, ◌≢◌, ◌==◌,
  if◌then◌else◌, In, In-map, In-append_left, ==-ne,
}
use twirl.Exec.{Exec, nested}
use twirl.Exec.Keeps.{
  Keeps, Keeps-nested, Keeps-bind, Keeps-gets, Keeps-if, Keeps-pure, Keeps-raise, keeps_rules,
}
use twirl.Errors.{Error}
use twirl.Host.{Host}
use twirl.Model.{Db, Shop, Style, Item, Booking, ItemStatus, Actor, ItemConditionEvent}
use twirl.Session.{
  restore, insert_error, insert_row, insert_booking, add_event, add_condition_event,
}
use twirl.Timeline.{record_created}
use twirl.Codes.{random_code, try_refs, new_booking_ref, try_item_codes, new_item_code}
use twirl.Catalog.{NewStyle, insert_style, create_style, insert_item, add_each, add_items}
use twirl.Staff.{
  load_item, not_insertable, insert_or_conflict, insert_block, unless_taken, create_block,
  write_item_status, set_item_status,
}

-- Every row of `db` that is of another shop than `own` is in `d` as it was.
pub record IsUntouched (own : ℕ) (db d : Db) : Type 0 where
  pub shops : (s : Shop) → In s db.shops → s.id ≢ own → In s d.shops
  pub styles : (st : Style) → In st db.styles → st.shop_id ≢ own → In st d.styles
  pub items : (i : Item) → In i db.items → i.shop_id ≢ own → In i d.items
  pub bookings : (b : Booking) → In b db.bookings → b.shop_id ≢ own → In b d.bookings

pub kept_row :
    {A : Type 0} (test : A → Bool) (f : A → A) (x : A) (xs : List A)
    → In x xs
    → test x ≡ false
    → In x (map (λ t. if test t then f t else t) xs)
kept_row test f x xs i h = rw h at (In-map (λ t. if test t then f t else t) x xs i)

module _ (own : ℕ) (db : Db) where
  restore-IsUntouched : (s s' : Db) → IsUntouched own db s → IsUntouched own db (restore s s')
  restore-IsUntouched s s' h = record {
    shops = h.shops;
    styles = h.styles;
    items = h.items;
    bookings = h.bookings;
  }

  nested-IsUntouched :
      {A : Type 0} (m : Exec Db Error A)
      → Keeps (IsUntouched own db) m
      → Keeps (IsUntouched own db) (nested restore m)
  nested-IsUntouched m k = Keeps-nested restore m restore-IsUntouched k

  load_item-IsUntouched : (id : ℕ) → Keeps (IsUntouched own db) (load_item id)
  unfolding load_item
  load_item-IsUntouched id = record { run = λ d h. h }

  random_code-IsUntouched : (host : Host) (n : ℕ) → Keeps (IsUntouched own db) (random_code host n)
  unfolding random_code
  random_code-IsUntouched host n = record {
    run = λ d h. record {
      shops = h.shops;
      styles = h.styles;
      items = h.items;
      bookings = h.bookings;
    };
  }

  try_refs-IsUntouched : (host : Host) (n : ℕ) → Keeps (IsUntouched own db) (try_refs host n)
  unfolding try_refs
  try_refs-IsUntouched host zero = search keeps_rules
  try_refs-IsUntouched host (suc n) = Keeps-bind _ _ (random_code-IsUntouched host 6) λ ref.
      Keeps-bind _ _ (Keeps-gets _)
        λ taken. Keeps-if taken _ _ (try_refs-IsUntouched host n) (Keeps-pure ref)

  new_booking_ref-IsUntouched : (host : Host) → Keeps (IsUntouched own db) (new_booking_ref host)
  unfolding new_booking_ref
  new_booking_ref-IsUntouched host = try_refs-IsUntouched host 20

  try_item_codes-IsUntouched :
      (host : Host) (shop n : ℕ) → Keeps (IsUntouched own db) (try_item_codes host shop n)
  unfolding try_item_codes
  try_item_codes-IsUntouched host shop zero = search keeps_rules
  try_item_codes-IsUntouched host shop (suc n) =
      Keeps-bind _ _ (random_code-IsUntouched host 4) λ code.
        Keeps-bind _ _ (Keeps-gets _)
          λ taken. Keeps-if taken _ _ (try_item_codes-IsUntouched host shop n) (Keeps-pure code)

  new_item_code-IsUntouched :
      (host : Host) (shop : ℕ) → Keeps (IsUntouched own db) (new_item_code host shop)
  unfolding new_item_code
  new_item_code-IsUntouched host shop = try_item_codes-IsUntouched host shop 20

  insert_row-IsUntouched :
      (e : Option Error) (b : Booking) (d : Db)
      → IsUntouched own db d
      → IsUntouched own db (insert_row e b d).1
  unfolding insert_booking
  insert_row-IsUntouched none b d h = record {
    shops = h.shops;
    styles = h.styles;
    items = h.items;
    bookings = λ c i ne. In-append_left c d.bookings (b ∷ []) (h.bookings c i ne);
  }
  insert_row-IsUntouched (some e) b d h = h

  insert_booking-IsUntouched : (b : Booking) → Keeps (IsUntouched own db) (insert_booking b)
  unfolding insert_booking
  insert_booking-IsUntouched b = record {
    run = λ d h.
        let row = record b { id = d.booking_seq; created_at = d.now } in
        insert_row-IsUntouched (insert_error row d) row
          (record d { booking_seq = suc d.booking_seq })
          (record { shops = h.shops; styles = h.styles; items = h.items; bookings = h.bookings });
  }

  add_condition_event-IsUntouched :
      (e : ItemConditionEvent) → Keeps (IsUntouched own db) (add_condition_event e)
  unfolding add_condition_event
  add_condition_event-IsUntouched e = record {
    run = λ d h. record {
      shops = h.shops;
      styles = h.styles;
      items = h.items;
      bookings = h.bookings;
    };
  }

  record_created-IsUntouched :
      (b : Booking) (a : Actor) → Keeps (IsUntouched own db) (record_created b a)
  unfolding record_created add_event
  record_created-IsUntouched b a = record {
    run = λ d h. record {
      shops = h.shops;
      styles = h.styles;
      items = h.items;
      bookings = h.bookings;
    };
  }

  not_insertable-IsUntouched :
      (id start end : ℕ) (e : Error) → Keeps (IsUntouched own db) (not_insertable id start end e)
  unfolding not_insertable
  not_insertable-IsUntouched id start end e = search keeps_rules

  insert_or_conflict-IsUntouched :
      (b : Booking) (start end : ℕ) → Keeps (IsUntouched own db) (insert_or_conflict b start end)
  unfolding insert_or_conflict
  insert_or_conflict-IsUntouched b start end =
      search
        (keeps_rules, nested-IsUntouched, insert_booking-IsUntouched, not_insertable-IsUntouched)

  insert_block-IsUntouched :
      (host : Host) (item : Item) (s e : ℕ) (r : Text) (a : Actor)
      → Keeps (IsUntouched own db) (insert_block host item s e r a)
  unfolding insert_block
  insert_block-IsUntouched host item s e r a = search (
    keeps_rules, new_booking_ref-IsUntouched, insert_or_conflict-IsUntouched,
    record_created-IsUntouched,
  )

  unless_taken-IsUntouched :
      (conflicts : List Booking) (m : Exec Db Error Booking)
      → Keeps (IsUntouched own db) m
      → Keeps (IsUntouched own db) (unless_taken conflicts m)
  unfolding unless_taken
  unless_taken-IsUntouched [] m k = k
  unless_taken-IsUntouched (c ∷ cs) m k = Keeps-raise _

  pub create_block-IsUntouched :
      (host : Host) (i s e : ℕ) (r : Text) (a : Actor)
      → Keeps (IsUntouched own db) (create_block host i s e r a)
  unfolding create_block
  create_block-IsUntouched host i s e r a =
      search
        (keeps_rules, load_item-IsUntouched, insert_block-IsUntouched, unless_taken-IsUntouched)
        depth 8

  write_item_status-IsUntouched :
      (id : ℕ) (st : ItemStatus)
      → ((x : Item) → In x db.items → x.shop_id ≢ own → x.id ≢ id)
      → Keeps (IsUntouched own db) (write_item_status id st)
  unfolding write_item_status
  write_item_status-IsUntouched id st other = record {
    run = λ d h. record {
      shops = h.shops;
      styles = h.styles;
      items = λ x i ne.
          kept_row (λ (y : Item). y.id == id) (λ y. record y { status = st }) x d.items
            (h.items x i ne) (==-ne x.id id (other x i ne));
      bookings = h.bookings;
    };
  }

  pub set_item_status-IsUntouched :
      (id : ℕ) (st : ItemStatus) (a : Actor) (today : ℕ) (n : Text)
      → ((x : Item) → In x db.items → x.shop_id ≢ own → x.id ≢ id)
      → Keeps (IsUntouched own db) (set_item_status id st a today n)
  unfolding set_item_status
  set_item_status-IsUntouched id st a today n other =
      Keeps-bind _ _ (load_item-IsUntouched id) λ item.
        Keeps-bind _ _ (write_item_status-IsUntouched id st other)
          λ u. Keeps-bind _ _ (add_condition_event-IsUntouched _) (λ v. Keeps-gets _)

  insert_item-IsUntouched :
      (st : Style) (size code : Text) → Keeps (IsUntouched own db) (insert_item st size code)
  unfolding insert_item
  insert_item-IsUntouched st size code = record {
    run = λ d h. record {
      shops = h.shops;
      styles = h.styles;
      items = λ x i ne. In-append_left x d.items _ (h.items x i ne);
      bookings = h.bookings;
    };
  }

  add_each-IsUntouched :
      (host : Host) (st : Style) (size : Text) (n : ℕ)
      → Keeps (IsUntouched own db) (add_each host st size n)
  unfolding add_each
  add_each-IsUntouched host st size zero = Keeps-pure []
  add_each-IsUntouched host st size (suc n) =
      Keeps-bind _ _ (new_item_code-IsUntouched host st.shop_id) λ code.
        Keeps-bind _ _ (insert_item-IsUntouched st size code) λ item.
          Keeps-bind _ _ (add_each-IsUntouched host st size n) λ items. Keeps-pure (item ∷ items)

  pub add_items-IsUntouched :
      (host : Host) (st : Style) (size : Text) (n : ℕ)
      → Keeps (IsUntouched own db) (add_items host st size n)
  unfolding add_items
  add_items-IsUntouched host st size n = search (keeps_rules, add_each-IsUntouched)

  insert_style-IsUntouched : (row : Db → Style) → Keeps (IsUntouched own db) (insert_style row)
  unfolding insert_style
  insert_style-IsUntouched row = record {
    run = λ d h. record {
      shops = h.shops;
      styles = λ x i ne. In-append_left x d.styles _ (h.styles x i ne);
      items = h.items;
      bookings = h.bookings;
    };
  }

  pub create_style-IsUntouched :
      (shop : ℕ) (new : NewStyle) → Keeps (IsUntouched own db) (create_style shop new)
  unfolding create_style
  create_style-IsUntouched shop new = search (keeps_rules, insert_style-IsUntouched) depth 8
