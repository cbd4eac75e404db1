-- ===== src/Prelude/Order.antt =====
-- The first row of a sorted list.
use mathlib.Core.Path.{◌≡◌, refl, subst}
use mathlib.Core.Logic.{◌⊎◌, inl, inr}
use mathlib.Core.Bool.{Bool, true, false}
use mathlib.Core.Option.{some}
use mathlib.Core.List.{List, [], ◌∷◌}
use native.Mathlib.Omega.{arith}
use twirl.Prelude.Tests.{Bool-cases}
use twirl.Prelude.Lists.{first, sort_by, insert_by, In, sort_by-In}

pub record IsOrder {A : Type 0} (before : A → A → Bool) : Type 0 where
  pub total : (a b : A) → (before a b ≡ true) ⊎ (before b a ≡ true)
  pub trans : (a b c : A) → before a b ≡ true → before b c ≡ true → before a c ≡ true

module _ {A : Type 0} (before : A → A → Bool) (o : IsOrder before) where
  before_refl : (a : A) → before a a ≡ true
  before_refl a = elim (o.total a a) [ inl h ↦ h | inr h ↦ h ]

  other_way : (a b : A) → before a b ≡ false → before b a ≡ true
  other_way a b h = elim (o.total a b) [ inl t ↦ absurd (cc) | inr t ↦ t ]

  first-taken :
      (x y m : A) (ys : List A)
      → before x y ≡ true
      → first (insert_by before x (y ∷ ys)) ≡ some m
      → x ≡ m
  unfolding insert_by
  first-taken x y m ys t h = ground arith

  first-kept :
      (x y m : A) (ys : List A)
      → before x y ≡ false
      → first (insert_by before x (y ∷ ys)) ≡ some m
      → y ≡ m
  unfolding insert_by
  first-kept x y m ys t h = ground arith

  first-alone : (x m : A) → first (insert_by before x []) ≡ some m → x ≡ m
  unfolding insert_by
  first-alone x m h = ground arith

  -- Inserting into a list whose first row comes before the rows `P`.
  first-insert_by :
      (x m : A) (ys : List A) (P : A → Type 0)
      → ((y a : A) → first ys ≡ some y → P a → before y a ≡ true)
      → (ys ≡ [] → (a : A) → P a → ⊥)
      → first (insert_by before x ys) ≡ some m
      → (a : A) → (a ≡ x) ⊎ P a
      → before m a ≡ true
  first-insert_by x m [] P least none_left h a (inl e) =
      subst (λ (z : A). before z a ≡ true) (first-alone x m h) (rw e (before_refl x))
  first-insert_by x m [] P least none_left h a (inr p) = absurd (none_left refl a p)
  first-insert_by x m (y ∷ ys) P least none_left h a (inl e) = elim (Bool-cases (before x y)) [
    | inl t ↦ subst (λ (z : A). before z a ≡ true) (first-taken x y m ys t h) (rw e (before_refl x))
    | inr f ↦
        subst (λ (z : A). before z a ≡ true) (first-kept x y m ys f h) (rw e (other_way x y f))
  ]
  first-insert_by x m (y ∷ ys) P least none_left h a (inr p) = elim (Bool-cases (before x y)) [
    | inl t ↦
        subst (λ (z : A). before z a ≡ true) (first-taken x y m ys t h)
          (o.trans x y a t (least y a refl p))
    | inr f ↦ subst (λ (z : A). before z a ≡ true) (first-kept x y m ys f h) (least y a refl p)
  ]

  -- The first row of the sorted list comes before every row.
  pub first-sort_by :
      (xs : List A) (m a : A) → first (sort_by before xs) ≡ some m → In a xs → before m a ≡ true
  unfolding sort_by
  first-sort_by [] m a h i = elim i [ ]
  first-sort_by (x ∷ xs) m a h i =
      first-insert_by x m (sort_by before xs) (λ b. In b xs) (λ y b e j. first-sort_by xs y b e j)
        (λ e b j. subst (λ (l : List A). In b l) e (sort_by-In before b xs j)) h a i
