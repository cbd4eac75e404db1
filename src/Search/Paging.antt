-- ===== src/Search/Paging.antt =====
-- search.py: the pages of `search`
use twirl.Prelude.{
  ℕ, zero, suc, ◌+◌, ◌-◌, ◌*◌, ◌/◌, ◌%◌, ◌≤◌, ◌<◌, ◌≡◌, refl, sym, ap, ◌∙◌, inl, inr, some, List,
  [], ◌∷◌, first, take, drop, length, length-take_le, In, arith,
}
use twirl.Search.Pages.{page_count, page_of, page_size}

module _ {A : Type 0} where
  drop_nil : (n : ℕ) → drop {A = A} n [] ≡ []
  drop_nil zero = refl
  drop_nil (suc n) = refl

  drop-drop : (m n : ℕ) (xs : List A) → drop n (drop m xs) ≡ drop (m + n) xs
  drop-drop zero n xs = ap (λ k. drop k xs) (omega arith)
  drop-drop (suc m) n [] = drop_nil n ∙ sym (drop_nil (suc m + n))
  drop-drop (suc m) n (x ∷ xs) =
      let shift : suc (m + n) ≡ suc m + n = omega arith in
      drop-drop m n xs ∙ ap (λ k. drop k (x ∷ xs)) shift

  -- A member has a place.
  place : (x : A) (xs : List A) → In x xs → (n : ℕ) × (n < length xs) × (first (drop n xs) ≡ some x)
  place x [] i = elim i [ ]
  place x (y ∷ ys) (inl e) = (0, omega arith, cc)
  place x (y ∷ ys) (inr i) = let (n, l, e) = place x ys i in (suc n, omega arith, e)

  take-In : (x : A) (r m : ℕ) (xs : List A) → first (drop r xs) ≡ some x → r < m → In x (take m xs)
  take-In x zero zero xs e l = absurd (omega arith)
  take-In x (suc r) zero xs e l = absurd (omega arith)
  take-In x zero (suc m) [] e l = cc
  take-In x (suc r) (suc m) [] e l = cc
  take-In x zero (suc m) (y ∷ ys) e l = inl (cc)
  take-In x (suc r) (suc m) (y ∷ ys) e l = inr (take-In x r m ys e (omega arith))

  page_at :
      (x : A) (xs : List A) (k r n : ℕ)
      → k * 24 + r ≡ n
      → r < 24
      → first (drop n xs) ≡ some x
      → In x (page_of (k + 1) xs)
  unfolding page_of
  page_at x xs k r n split l e =
      let back : k + 1 - 1 ≡ k = omega arith in
      rw back (take-In x r 24 (drop (k * 24) xs) (rw (drop-drop (k * 24) r xs, split) e) l)

  -- Every row stands on one of the pages that are counted.
  pub page_of-covers :
      (x : A) (xs : List A)
      → In x xs
      → (page : ℕ) × (1 ≤ page) × (page ≤ page_count (length xs)) × In x (page_of page xs)
  unfolding page_count
  page_of-covers x xs i =
      let (n, l, e) = place x xs i in
      (
        n / 24 + 1,
        omega arith,
        omega arith,
        page_at x xs (n / 24) (n % 24) n (omega arith) (omega arith) e,
      )

  pub In-take : (x : A) (n : ℕ) (xs : List A) → In x (take n xs) → In x xs
  In-take x zero xs h = elim h [ ]
  In-take x (suc n) [] h = h
  In-take x (suc n) (y ∷ ys) (inl e) = inl e
  In-take x (suc n) (y ∷ ys) (inr h) = inr (In-take x n ys h)

  In-drop : (x : A) (n : ℕ) (xs : List A) → In x (drop n xs) → In x xs
  In-drop x zero xs h = h
  In-drop x (suc n) [] h = h
  In-drop x (suc n) (y ∷ ys) h = inr (In-drop x n ys h)

  pub In-page_of : (x : A) (page : ℕ) (xs : List A) → In x (page_of page xs) → In x xs
  unfolding page_of
  In-page_of x page xs h =
      In-drop x ((page - 1) * 24) xs (In-take x 24 (drop ((page - 1) * 24) xs) h)

  pub length-page_of : (page : ℕ) (xs : List A) → length (page_of page xs) ≤ page_size
  unfolding page_of
  length-page_of page xs = length-take_le 24 (drop ((page - 1) * 24) xs)
