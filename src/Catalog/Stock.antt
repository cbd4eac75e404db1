-- ===== src/Catalog/Stock.antt =====
-- catalog.py: `add_items`
use twirl.Prelude.{
  ◌≤◌, ◌<◌, Bool-cases, ℕ, zero, suc, ◌≡◌, refl, subst, sym, ap, ◌∙◌, ◌⊎◌, inl, inr, false, ◌&&◌,
  List, [], ◌∷◌, ◌++◌, Text, length, In, append-nil, append_assoc, leb, arith,
}
use twirl.Exec.{ok, err, pure, raise, lift, ◌>>=◌}
use twirl.Exec.Holds.{Ends, Ends-bind, Ends-if, Ends-weaken, Ends-lift}
use twirl.Errors.{Error, runtime_error, value_error}
use twirl.Host.{Host}
use twirl.Model.{Db, Style, Item, ItemStatus}
use twirl.Sizes.{normalize_size}
use twirl.Codes.{new_item_code, item_code_taken}
use twirl.Codes.Fresh.{IsCode, IsFreshCode, GaveUp, new_item_code-fresh}
use twirl.Catalog.{add_items, add_each, insert_item, item_row, max_items_per_add}

not_taken_before :
    (shop_id : ℕ) (code : Text) (xs ys : List Item)
    → item_code_taken shop_id code (xs ++ ys) ≡ false
    → item_code_taken shop_id code xs ≡ false
not_taken_before shop_id code [] ys h = refl
not_taken_before shop_id code (x ∷ xs) ys h = ground (arith, not_taken_before shop_id code xs ys)

module _ (host : Host) (style : Style) (size : Text) where
  -- A new item of the style, of the size, in use, with a code of four characters.
  pub record IsNew (db : Db) (item : Item) : Type 0 where
    pub style_id : item.style_id ≡ style.id
    pub shop_id : item.shop_id ≡ style.shop_id
    pub right_size : item.size ≡ size
    pub in_use : item.status ≡ ItemStatus.active
    pub code : IsCode 4 item.code
    pub fresh : item_code_taken style.shop_id item.code db.items ≡ false

  pub record AreAdded (quantity : ℕ) (db : Db) (items : List Item) (d : Db) : Type 0 where
    pub count : length items ≡ quantity
    pub stored : d.items ≡ db.items ++ items
    pub each : (i : Item) → In i items → IsNew db i
    pub others : d ≡ record db { items = d.items; item_seq = d.item_seq; drawn = d.drawn }

  abbrev inserted : Text → Db → Db
  inserted code d = record d {
    items = d.items ++ item_row style size code d.item_seq ∷ [];
    item_seq = suc d.item_seq;
  }

  with_first :
      (code : Text) (quantity : ℕ) (db d : Db) (items : List Item) (d' : Db)
      → IsFreshCode style.shop_id db code d
      → AreAdded quantity (inserted code d) items d'
      → AreAdded (suc quantity) db (item_row style size code d.item_seq ∷ items) d'
  with_first code quantity db d items d' (drew, fresh, is_code) r =
      let row = item_row style size code d.item_seq in
      let same : d.items ≡ db.items = ap (λ (x : Db). x.items) drew in
      record {
        count = ap suc r.count;
        stored =
            r.stored
            ∙ append_assoc d.items (row ∷ []) items
            ∙ ap (λ (l : List Item). l ++ (row ∷ items)) same;
        each = λ i h. elim h [
          | inl e ↦ rw e (record {
            style_id = refl;
            shop_id = refl;
            right_size = refl;
            in_use = refl;
            code = is_code;
            fresh = fresh;
          })
          | inr j ↦
              let n = r.each i j in
              record {
                style_id = n.style_id;
                shop_id = n.shop_id;
                right_size = n.right_size;
                in_use = n.in_use;
                code = n.code;
                fresh =
                    subst (λ (l : List Item). item_code_taken style.shop_id i.code l ≡ false) same
                      (not_taken_before style.shop_id i.code d.items (row ∷ []) n.fresh);
              }
        ];
        others = cc;
      }

  -- One item, before the others.
  add_first :
      (code : Text) (quantity : ℕ) (db d : Db)
      → IsFreshCode style.shop_id db code d
      → Ends
          (AreAdded quantity (inserted code d))
          (λ e d. e ≡ runtime_error)
          (add_each host style size quantity (inserted code d))
      → Ends
          (AreAdded (suc quantity) db)
          (λ e d. e ≡ runtime_error)
          ((insert_item style size code >>= λ item.
              add_each host style size quantity >>= λ items. pure (item ∷ items))
            d)
  unfolding insert_item ◌>>=◌ pure
  add_first code quantity db d fresh h =
      Ends-bind (AreAdded quantity (inserted code d)) (λ e d'. e ≡ runtime_error)
        (λ e d'. e ≡ runtime_error) (add_each host style size quantity)
        (λ items. pure (item_row style size code d.item_seq ∷ items)) (AreAdded (suc quantity) db)
        (inserted code d) (λ e d' x. x) h
        λ items d' r. with_first code quantity db d items d' fresh r

  add_each-AreAdded :
      (quantity : ℕ) (db : Db)
      → Ends
          (AreAdded quantity db)
          (λ e d. e ≡ runtime_error)
          (add_each host style size quantity db)
  unfolding add_each
  add_each-AreAdded zero db =
      unfold pure in
      record {
        count = refl;
        stored = sym (append-nil db.items);
        each = λ i h. elim h [ ];
        others = refl;
      }
  add_each-AreAdded (suc quantity) db =
      Ends-bind (IsFreshCode style.shop_id db) (GaveUp db) (λ e d. e ≡ runtime_error)
        (new_item_code host style.shop_id) _ (AreAdded (suc quantity) db) db (λ e d h. h.1)
        (new_item_code-fresh host style.shop_id db)
        λ code d h. add_first code quantity db d h (add_each-AreAdded quantity (inserted code d))

-- Where `add_items` raises: no code was found, or nothing has changed and the quantity or the size is
-- not one that it takes.
abbrev pub NotAdded : Host → Text → ℕ → Db → Error → Db → Type 0
NotAdded host size quantity db e d =
    (e ≡ runtime_error)
    ⊎ ((e ≡ value_error)
        × (d ≡ db)
        × ((quantity ≡ 0) ⊎ ((20 < quantity) ⊎ (normalize_size host size ≡ err value_error))))

normalize_size-error :
    (host : Host) (size : Text) (e : Error) → normalize_size host size ≡ err e → e ≡ value_error
unfolding normalize_size
normalize_size-error host size e h = ground arith

-- what `add_items` ensures where it returns
abbrev pub Added : Host → Style → Text → ℕ → Db → List Item → Db → Type 0
Added host style size quantity db items d =
    (1 ≤ quantity)
    × (quantity ≤ 20)
    × ((s : Text) × (normalize_size host size ≡ ok s) × AreAdded host style s quantity db items d)

sized_ends :
    (host : Host) (style : Style) (size : Text) (quantity : ℕ) (db : Db)
    → 1 ≤ quantity
    → quantity ≤ 20
    → Ends
        (Added host style size quantity db)
        (NotAdded host size quantity db)
        ((lift (normalize_size host size) >>= (λ s. add_each host style s quantity)) db)
sized_ends host style size quantity db low high =
    Ends-bind (λ s d. (normalize_size host size ≡ ok s) × (d ≡ db))
      (λ e d. (normalize_size host size ≡ err e) × (d ≡ db)) (NotAdded host size quantity db)
      (lift (normalize_size host size)) (λ s. add_each host style s quantity)
      (Added host style size quantity db) db
      (λ e d h.
        let v = normalize_size-error host size e h.0 in inr (v, h.1, inr (inr (h.0 ∙ ap err v))))
      (Ends-lift (normalize_size host size) db)
      (λ s d h. rw h.1 (
        Ends-weaken (AreAdded host style s quantity db) (Added host style size quantity db)
          (λ e x. e ≡ runtime_error) (NotAdded host size quantity db)
          (add_each host style s quantity db) (λ items x r. (low, high, (s, h.0, r)))
          (λ e x r. inl r) (add_each-AreAdded host style s quantity db)))

out_of_range :
    {A : Type 0} (quantity : ℕ)
    → (leb 1 quantity && leb quantity max_items_per_add) ≡ false
    → (quantity ≡ 0) ⊎ ((20 < quantity) ⊎ A)
out_of_range quantity h = elim (Bool-cases (leb 1 quantity)) [
  | inl e ↦ inr (inl (ground (arith, e, h)))
  | inr e ↦ inl (ground (arith, e))
]

-- `add_items` refuses a quantity outside 1 to 20 and a size that is empty or too long, changing nothing;
-- otherwise it stores just that many new items of the style, each in use, of the normalised size, and
-- with a code of four characters that no item of the shop had, unless no code was found.
pub add_items_outcome :
    (host : Host) (style : Style) (size : Text) (quantity : ℕ) (db : Db)
    → Ends
        (Added host style size quantity db)
        (NotAdded host size quantity db)
        (add_items host style size quantity db)
unfolding add_items
add_items_outcome host style size quantity db =
    Ends-if (Added host style size quantity db) (NotAdded host size quantity db)
      (leb 1 quantity && leb quantity max_items_per_add)
      (lift (normalize_size host size) >>= (λ s. add_each host style s quantity))
      (raise value_error) db
      (λ t. sized_ends host style size quantity db (ground (arith, t)) (ground (arith, t)))
      (λ f. unfold raise in inr (refl, refl, out_of_range quantity f))
