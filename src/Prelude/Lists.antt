-- ===== src/Prelude/Lists.antt =====
-- Lists measured by native numbers, filtered by Boolean tests, and membership by recursion, which
-- the tactics read.
use Prim.Native.Nat.{◌+◌, ℕ, zero, suc, ◌≤◌}
use mathlib.Core.Path.{◌≡◌, refl, ap}
use mathlib.Core.Logic.{◌⊎◌, inl, inr}
use mathlib.Core.Bool.{Bool, true, false, ◌&&◌, ◌||◌}
use mathlib.Core.Option.{Option, none, some}
use mathlib.Core.List.{List, [], ◌∷◌, ◌++◌, map}
use native.Mathlib.Omega.{arith}
use twirl.Prelude.Tests.{if◌then◌else◌, Bool-cases}

module _ {ℓ} {A : Type ℓ} where
  abbrev pub length : List A → ℕ
  length [] = 0
  length (x ∷ xs) = suc (length xs)

  abbrev pub take : ℕ → List A → List A
  take zero xs = []
  take (suc n) [] = []
  take (suc n) (x ∷ xs) = x ∷ take n xs

  -- OFFSET n, and `xs[n:]`
  abbrev pub drop : ℕ → List A → List A
  drop zero xs = xs
  drop (suc n) [] = []
  drop (suc n) (x ∷ xs) = drop n xs

  -- WHERE: the rows that pass the test, in their order.
  abbrev pub where_ : (A → Bool) → List A → List A
  where_ p [] = []
  where_ p (x ∷ xs) = let rest = where_ p xs in if p x then x ∷ rest else rest

  -- Python's `any(p(x) for x in xs)` and `all(p(x) for x in xs)`
  abbrev pub any : (A → Bool) → List A → Bool
  any p [] = false
  any p (x ∷ xs) = p x || any p xs

  abbrev pub all : (A → Bool) → List A → Bool
  all p [] = true
  all p (x ∷ xs) = p x && all p xs

  -- LIMIT 1
  abbrev pub first : List A → Option A
  first [] = none
  first (x ∷ xs) = some x

  abbrev pub find : (A → Bool) → List A → Option A
  find p [] = none
  find p (x ∷ xs) = if p x then some x else find p xs

  abbrev pub get_or : List A → ℕ → A → A
  get_or [] i d = d
  get_or (x ∷ xs) zero d = x
  get_or (x ∷ xs) (suc i) d = get_or xs i d

  -- ORDER BY: a stable insertion sort by `before a b`, "a may stand before b".
  unfoldable pub insert_by : (A → A → Bool) → A → List A → List A
  insert_by before x [] = x ∷ []
  insert_by before x (y ∷ ys) =
      let rest = insert_by before x ys in if before x y then x ∷ y ∷ ys else y ∷ rest

  unfoldable pub sort_by : (A → A → Bool) → List A → List A
  unfolding insert_by
  sort_by before [] = []
  sort_by before (x ∷ xs) = insert_by before x (sort_by before xs)

  pub length-take_le : (n : ℕ) (xs : List A) → length (take n xs) ≤ n
  length-take_le zero xs = omega arith
  length-take_le (suc n) [] = omega arith
  length-take_le (suc n) (x ∷ xs) = omega (arith, length-take_le n xs)

module _ {ℓ} {A : Type ℓ} where
  pub length-append : (xs ys : List A) → length (xs ++ ys) ≡ length xs + length ys
  length-append [] ys = omega arith
  length-append (x ∷ xs) ys = omega (arith, length-append xs ys)

module _ {A : Type 0} where
  -- `x` stands in the list.
  abbrev pub In : A → List A → Type 0
  In x [] = ⊥
  In x (y ∷ ys) = (x ≡ y) ⊎ In x ys

  pub In-append_right : (x : A) (xs ys : List A) → In x ys → In x (xs ++ ys)
  In-append_right x [] ys h = h
  In-append_right x (z ∷ xs) ys h = inr (In-append_right x xs ys h)

  pub In-append_left : (x : A) (xs ys : List A) → In x xs → In x (xs ++ ys)
  In-append_left x [] ys h = elim h [ ]
  In-append_left x (z ∷ xs) ys (inl e) = inl e
  In-append_left x (z ∷ xs) ys (inr h) = inr (In-append_left x xs ys h)

  pub In-append : (x : A) (xs ys : List A) → In x (xs ++ ys) → In x xs ⊎ In x ys
  In-append x [] ys h = inr h
  In-append x (z ∷ xs) ys (inl e) = inl (inl e)
  In-append x (z ∷ xs) ys (inr h) = elim (In-append x xs ys h) [
    | inl a ↦ inl (inr a)
    | inr b ↦ inr b
  ]

  -- A row that the filter lets through stands in the table and passes the test.
  pub In-where : (p : A → Bool) (x : A) (xs : List A) → In x (where_ p xs) → In x xs × (p x ≡ true)
  In-where p x [] h = elim h [ ]
  In-where p x (y ∷ ys) h = ground (arith, In-where p x ys)

  pub where-In : (p : A → Bool) (x : A) (xs : List A) → In x xs → p x ≡ true → In x (where_ p xs)
  where-In p x [] h t = elim h [ ]
  where-In p x (y ∷ ys) h t = ground (arith, where-In p x ys)

  pub any-false : (p : A → Bool) (x : A) (xs : List A) → any p xs ≡ false → In x xs → p x ≡ false
  any-false p x [] h i = elim i [ ]
  any-false p x (y ∷ ys) h i = ground (arith, any-false p x ys)

  pub any-true : (p : A → Bool) (x : A) (xs : List A) → In x xs → p x ≡ true → any p xs ≡ true
  any-true p x [] i h = elim i [ ]
  any-true p x (y ∷ ys) i h = ground (arith, any-true p x ys)

  -- A test that holds of no row.
  pub any-eq-false :
      (p : A → Bool) (xs : List A) → ((x : A) → In x xs → p x ≡ false) → any p xs ≡ false
  any-eq-false p [] h = refl
  any-eq-false p (y ∷ ys) h = rw (h y (inl refl)) (any-eq-false p ys (λ x i. h x (inr i)))

  pub any-witness :
      (p : A → Bool) (xs : List A) → any p xs ≡ true → (x : A) × In x xs × (p x ≡ true)
  any-witness p [] h = cc
  any-witness p (y ∷ ys) h = elim (Bool-cases (p y)) [
    | inl e ↦ (y, inl refl, e)
    | inr e ↦ let (x, i, t) = any-witness p ys (rw e at h) in (x, inr i, t)
  ]

  pub all-true : (p : A → Bool) (x : A) (xs : List A) → all p xs ≡ true → In x xs → p x ≡ true
  all-true p x [] h i = elim i [ ]
  all-true p x (y ∷ ys) h i = ground (arith, all-true p x ys)

  pub first-In : (x : A) (xs : List A) → first xs ≡ some x → In x xs
  first-In x [] h = cc
  first-In x (y ∷ ys) h = inl (cc)

  pub find-In : (p : A → Bool) (x : A) (xs : List A) → find p xs ≡ some x → In x xs × (p x ≡ true)
  find-In p x [] h = cc
  find-In p x (y ∷ ys) h = ground (arith, find-In p x ys)

  pub In-insert_by :
      (before : A → A → Bool) (a x : A) (ys : List A)
      → In a (insert_by before x ys)
      → (a ≡ x) ⊎ In a ys
  unfolding insert_by
  In-insert_by before a x [] h = h
  In-insert_by before a x (y ∷ ys) h = ground (arith, In-insert_by before a x ys)

  insert_by-In :
      (before : A → A → Bool) (a x : A) (ys : List A)
      → (a ≡ x) ⊎ In a ys
      → In a (insert_by before x ys)
  unfolding insert_by
  insert_by-In before a x [] h = h
  insert_by-In before a x (y ∷ ys) h = ground (arith, insert_by-In before a x ys)

  -- Sorting keeps the rows.
  pub In-sort_by :
      (before : A → A → Bool) (a : A) (xs : List A) → In a (sort_by before xs) → In a xs
  unfolding sort_by
  In-sort_by before a [] h = h
  In-sort_by before a (x ∷ xs) h = elim (In-insert_by before a x (sort_by before xs) h) [
    | inl e ↦ inl e
    | inr i ↦ inr (In-sort_by before a xs i)
  ]

  pub sort_by-In :
      (before : A → A → Bool) (a : A) (xs : List A) → In a xs → In a (sort_by before xs)
  unfolding sort_by
  sort_by-In before a [] h = h
  sort_by-In before a (x ∷ xs) (inl e) = insert_by-In before a x (sort_by before xs) (inl e)
  sort_by-In before a (x ∷ xs) (inr i) =
      insert_by-In before a x (sort_by before xs) (inr (sort_by-In before a xs i))

  -- Where some row passes the test, a row is found.
  pub find-total :
      (p : A → Bool) (x : A) (xs : List A) → In x xs → p x ≡ true → (y : A) × (find p xs ≡ some y)
  find-total p x [] i h = elim i [ ]
  find-total p x (y ∷ ys) i h = elim (Bool-cases (p y)) [
    | inl e ↦ (y, rw e refl)
    | inr e ↦ let (z, f) = find-total p x ys (later i e) h in (z, rw e f)
  ]
    where
      later : (x ≡ y) ⊎ In x ys → p y ≡ false → In x ys
      later (inl e) f = absurd (cc)
      later (inr j) f = j

pub map-In :
    {A B : Type 0} (f : A → B) (b : B) (xs : List A)
    → In b (map f xs)
    → (a : A) × In a xs × (b ≡ f a)
map-In f b [] h = elim h [ ]
map-In f b (x ∷ xs) (inl e) = (x, inl refl, e)
map-In f b (x ∷ xs) (inr h) = let (a, i, e) = map-In f b xs h in (a, inr i, e)

pub In-map : {A B : Type 0} (f : A → B) (a : A) (xs : List A) → In a xs → In (f a) (map f xs)
In-map f a [] h = elim h [ ]
In-map f a (x ∷ xs) (inl e) = inl (ap f e)
In-map f a (x ∷ xs) (inr h) = inr (In-map f a xs h)

pub length-map : {A B : Type 0} (f : A → B) (xs : List A) → length (map f xs) ≡ length xs
length-map f [] = refl
length-map f (x ∷ xs) = ap suc (length-map f xs)
