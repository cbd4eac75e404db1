-- ===== src/Availability/Sized.antt =====
-- booking/availability.py: `style_availability`.
use twirl.Prelude.{
  ℕ, ◌≡◌, ◌↔◌, sym, subst, ap, ◌∙◌, inl, inr, Bool, true, ◌&&◌, none, some, List, map, Text,
  text_eq, text_eq_refl, eq_of_text_eq, any, where_, ◌==◌, In, In-map, map-In, any-witness,
  any-true, arith,
}
use twirl.Exec.{Result, ok, and_then, Result-cases}
use twirl.Errors.{Error}
use twirl.Host.{Host}
use twirl.Model.{Db, Shop, Item, is_in_use}
use twirl.Dates.{
  RentalDates, derive_rental_dates, validate_rental_dates, blocked_range, rules_for_shop,
}
use twirl.Availability.{FreeQuery, free_items}
use twirl.Sizes.{distinct, sorted_sizes}

pub record StyleAvailability : Type 0 where
  pub dates : RentalDates
  -- the dict of the sizes, in the order of its insertions
  pub sizes : List (Text × Bool)

-- the sizes of the style's items in use
unfoldable pub sizes_in_use : ℕ → Db → List Text
sizes_in_use style_id db =
    map (λ (i : Item). i.size)
      (where_ (λ (i : Item). i.style_id == style_id && is_in_use i.status) db.items)

abbrev pub window_query : ℕ → ℕ × ℕ → FreeQuery
window_query style_id (start, end) = record {
  start = start;
  end = end;
  style_id = some style_id;
  shop_id = none;
  size = none;
}

unfoldable pub free_sizes : ℕ → ℕ × ℕ → Db → List Text
free_sizes style_id window db =
    map (λ (i : Item). i.size) (free_items (window_query style_id window) db)

-- `{s: s in free_sizes for s in ordered}`
abbrev pub marked : List Text → List Text → List (Text × Bool)
marked free ordered = map (λ (s : Text). (s, any (λ t. text_eq t s) free)) ordered

unfoldable pub style_availability :
    Host → (style_id : ℕ) → Shop → (event today : ℕ) → Db → Result Error StyleAvailability
style_availability host style_id shop event today db =
    let rules = rules_for_shop shop in
    and_then (derive_rental_dates event rules) λ dates.
      and_then (validate_rental_dates dates rules today (some event)) λ _.
        and_then (blocked_range dates rules.prep_days rules.cleaning_days) λ window.
          and_then (sorted_sizes host (distinct (sizes_in_use style_id db))) λ ordered.
            ok (record { dates = dates; sizes = marked (free_sizes style_id window db) ordered })

answer_is :
    {a b : StyleAvailability} → ◌≡◌ {A = Result Error StyleAvailability} (ok a) (ok b) → a ≡ b
answer_is h = cc

window_is : {v w : ℕ × ℕ} → ◌≡◌ {A = Result Error (ℕ × ℕ)} (ok v) (ok w) → v ≡ w
window_is h = cc

-- The steps of a returned answer.
pub record IsAnswer (host : Host) (style_id : ℕ) (shop : Shop) (event today : ℕ) (db : Db)
    (answer : StyleAvailability) : Type 0 where
  pub window : ℕ × ℕ
  pub ordered : List Text
  pub valid : validate_rental_dates answer.dates (rules_for_shop shop) today (some event) ≡ ok tt
  pub blocks :
      blocked_range answer.dates (rules_for_shop shop).prep_days (rules_for_shop shop).cleaning_days
      ≡ ok window
  pub sizes : answer.sizes ≡ marked (free_sizes style_id window db) ordered

style_availability-IsAnswer :
    (host : Host) (style_id : ℕ) (shop : Shop) (event today : ℕ) (db : Db)
    (answer : StyleAvailability)
    → style_availability host style_id shop event today db ≡ ok answer
    → IsAnswer host style_id shop event today db answer
unfolding style_availability
style_availability-IsAnswer host style_id shop event today db answer h =
    let rules = rules_for_shop shop in
    elim (Result-cases (derive_rental_dates event rules)) [
      | inl (dates, a) ↦
          elim (Result-cases (validate_rental_dates dates rules today (some event))) [
            | inl (tt, b) ↦
                elim (Result-cases (blocked_range dates rules.prep_days rules.cleaning_days)) [
                  | inl (w, c) ↦
                      elim (Result-cases
                        (sorted_sizes host (distinct (sizes_in_use style_id db)))) [
                          | inl (ordered, d) ↦
                              let e = answer_is (rw (a, b, c, d) at h) in
                              record {
                                window = w;
                                ordered = ordered;
                                valid =
                                    subst
                                      (λ x.
                                        validate_rental_dates x rules today (some event) ≡ ok tt)
                                      (ap (λ (x : StyleAvailability). x.dates) e) b;
                                blocks =
                                    subst
                                      (λ x.
                                        blocked_range x rules.prep_days rules.cleaning_days ≡ ok w)
                                      (ap (λ (x : StyleAvailability). x.dates) e) c;
                                sizes = sym (ap (λ (x : StyleAvailability). x.sizes) e);
                              }
                          | inr (e, d) ↦ absurd (ground (arith, rw (a, b, c, d) at h))
                        ]
                  | inr (e, c) ↦ absurd (ground (arith, rw (a, b, c) at h))
                ]
            | inr (e, b) ↦ absurd (ground (arith, rw (a, b) at h))
          ]
      | inr (e, a) ↦ absurd (ground (arith, rw a at h))
    ]

marked-test :
    (free ordered : List Text) (s : Text) (b : Bool)
    → In (s, b) (marked free ordered)
    → b ≡ any (λ t. text_eq t s) free
marked-test free ordered s b h =
    let test = (λ (x : Text). any (λ t. text_eq t x) free) in
    let (a, i, e) = map-In (λ (x : Text). (x, test x)) (s, b) ordered h in
    ap (λ (p : Text × Bool). p.1) e ∙ ap test (sym (ap (λ (p : Text × Bool). p.0) e))

-- A free item of the style and the size, for the window of the dates.
pub record HasFree (style_id : ℕ) (shop : Shop) (db : Db) (dates : RentalDates) (size : Text)
    : Type 0 where
  pub window : ℕ × ℕ
  pub blocks :
      blocked_range dates (rules_for_shop shop).prep_days (rules_for_shop shop).cleaning_days
      ≡ ok window
  pub item : Item
  pub free : In item (free_items (window_query style_id window) db)
  pub right_size : item.size ≡ size

-- The page of a dress marks a size as free exactly when an item of the dress in that size is in use and
-- free for the whole window that the dates of the answer block.
pub style_availability_iff :
    (host : Host) (style_id : ℕ) (shop : Shop) (event today : ℕ) (db : Db)
    (answer : StyleAvailability) (s : Text) (b : Bool)
    → style_availability host style_id shop event today db ≡ ok answer
    → In (s, b) answer.sizes
    → (b ≡ true) ↔ HasFree style_id shop db answer.dates s
unfolding free_sizes
style_availability_iff host style_id shop event today db answer s b h i =
    let r = style_availability-IsAnswer host style_id shop event today db answer h in
    let free = map (λ (x : Item). x.size) (free_items (window_query style_id r.window) db) in
    let test =
      marked-test free r.ordered s b (subst (λ (l : List (Text × Bool)). In (s, b) l) r.sizes i) in
    (
      λ yes_free.
          let (t, j, e) = any-witness (λ t. text_eq t s) free (sym test ∙ yes_free) in
          let (x, k, q) =
            map-In (λ (x : Item). x.size) t (free_items (window_query style_id r.window) db) j in
          record {
            window = r.window;
            blocks = r.blocks;
            item = x;
            free = k;
            right_size = sym q ∙ eq_of_text_eq t s e;
          },
      λ has.
          let same : has.window ≡ r.window = window_is (sym has.blocks ∙ r.blocks) in
          test
          ∙ any-true (λ t. text_eq t s) has.item.size free
              (In-map (λ (x : Item). x.size) has.item
                (free_items (window_query style_id r.window) db)
                (subst (λ (w : ℕ × ℕ). In has.item (free_items (window_query style_id w) db)) same
                  has.free))
              (rw has.right_size (text_eq_refl s)),
    )
