-- ===== src/Onboarding/Ranges.antt =====
-- onboarding.py: `contiguous_ranges`
use twirl.Prelude.{
  ℕ, ◌+◌, ◌≤◌, ◌<◌, ◌≡◌, ◌↔◌, refl, ◌⊎◌, inl, inr, true, List, [], ◌∷◌, arith, any, ltb, leb, ◌==◌,
  In, Bool-cases,
}
use twirl.Dates.{covers}
use twirl.Onboarding.{set_insert, sorted_set, ranges_from, ranges_of, contiguous_ranges}

abbrev IsAscending : ℕ → List ℕ → Type 0
IsAscending last [] = Unit
IsAscending last (x ∷ xs) = (last < x) × IsAscending x xs

abbrev IsAscendingList : List ℕ → Type 0
IsAscendingList [] = Unit
IsAscendingList (x ∷ xs) = IsAscending x xs

IsAscending-set_insert :
    (a d : ℕ) (xs : List ℕ) → a < d → IsAscending a xs → IsAscending a (set_insert d xs)
unfolding set_insert
IsAscending-set_insert a d [] lt h = (lt, tt)
IsAscending-set_insert a d (x ∷ xs) lt h = elim (Bool-cases (ltb d x)) [
  | inl e ↦ rw e (lt, (ground arith, h.1))
  | inr e ↦ elim (Bool-cases (d == x)) [
    | inl f ↦ rw e (rw f h)
    | inr f ↦ rw e (rw f (h.0, IsAscending-set_insert x d xs (ground arith) h.1))
  ]
]

IsAscendingList-set_insert :
    (d : ℕ) (xs : List ℕ) → IsAscendingList xs → IsAscendingList (set_insert d xs)
unfolding set_insert
IsAscendingList-set_insert d [] h = tt
IsAscendingList-set_insert d (x ∷ xs) h = elim (Bool-cases (ltb d x)) [
  | inl e ↦ rw e (ground arith, h)
  | inr e ↦ elim (Bool-cases (d == x)) [
    | inl f ↦ rw e (rw f h)
    | inr f ↦ rw e (rw f (IsAscending-set_insert x d xs (ground arith) h))
  ]
]

IsAscendingList-sorted_set : (days : List ℕ) → IsAscendingList (sorted_set days)
unfolding sorted_set
IsAscendingList-sorted_set [] = tt
IsAscendingList-sorted_set (d ∷ days) =
    IsAscendingList-set_insert d (sorted_set days) (IsAscendingList-sorted_set days)

In-set_insert : (a d : ℕ) (xs : List ℕ) → In a (set_insert d xs) → (a ≡ d) ⊎ In a xs
unfolding set_insert
In-set_insert a d [] h = h
In-set_insert a d (x ∷ xs) h = ground (arith, In-set_insert a d xs)

set_insert-In : (a d : ℕ) (xs : List ℕ) → (a ≡ d) ⊎ In a xs → In a (set_insert d xs)
unfolding set_insert
set_insert-In a d [] h = h
set_insert-In a d (x ∷ xs) h = ground (arith, set_insert-In a d xs)

In-sorted_set : (a : ℕ) (days : List ℕ) → In a (sorted_set days) → In a days
unfolding sorted_set
In-sorted_set a [] h = h
In-sorted_set a (d ∷ days) h = elim (In-set_insert a d (sorted_set days) h) [
  | inl e ↦ inl e
  | inr i ↦ inr (In-sorted_set a days i)
]

sorted_set-In : (a : ℕ) (days : List ℕ) → In a days → In a (sorted_set days)
unfolding sorted_set
sorted_set-In a [] h = h
sorted_set-In a (d ∷ days) (inl e) = set_insert-In a d (sorted_set days) (inl e)
sorted_set-In a (d ∷ days) (inr i) =
    set_insert-In a d (sorted_set days) (inr (sorted_set-In a days i))

-- Within the range in hand, or among the days to come.
ranges_from-any :
    (a start last : ℕ) (xs : List ℕ)
    → start ≤ last
    → IsAscending last xs
    → any (covers a) (ranges_from start last xs) ≡ true
    → ((start ≤ a) × (a ≤ last)) ⊎ In a xs
unfolding ranges_from
ranges_from-any a start last [] le h c = inl (ground arith, ground arith)
ranges_from-any a start last (x ∷ xs) le h c = elim (Bool-cases (x == last + 1)) [
  | inl e ↦ elim (ranges_from-any a start x xs (omega (arith, h.0)) h.1 (rw e at c)) [
    | inl w ↦ elim (Bool-cases (leb a last)) [
      | inl f ↦ inl (w.0, ground arith)
      | inr f ↦ inr (inl (ground arith))
    ]
    | inr i ↦ inr (inr i)
  ]
  | inr e ↦ elim (Bool-cases (covers a (start, last))) [
    | inl f ↦ inl (ground arith, ground arith)
    | inr f ↦ elim (ranges_from-any a x x xs (omega arith) h.1 (rw f at (rw e at c))) [
      | inl w ↦ inr (inl (omega (arith, w.0, w.1)))
      | inr i ↦ inr (inr i)
    ]
  ]
]

-- One more day in hand, or still among the days to come.
joined :
    (a start last x : ℕ) (xs : List ℕ)
    → start ≤ last
    → last < x
    → ((start ≤ a) × (a ≤ last)) ⊎ In a (x ∷ xs)
    → ((start ≤ a) × (a ≤ x)) ⊎ In a xs
joined a start last x xs le lt (inl w) = inl (w.0, omega (arith, w.1))
joined a start last x xs le lt (inr (inl e)) = inl (omega (arith, e), omega (arith, e))
joined a start last x xs le lt (inr (inr i)) = inr i

apart :
    (a start last x : ℕ) (xs : List ℕ)
    → ((start ≤ a) × (a ≤ last)) ⊎ In a (x ∷ xs)
    → (covers a (start, last) ≡ true) ⊎ (((x ≤ a) × (a ≤ x)) ⊎ In a xs)
apart a start last x xs (inl w) = inl (ground (arith, w.0, w.1))
apart a start last x xs (inr (inl e)) = inr (inl (omega (arith, e), omega (arith, e)))
apart a start last x xs (inr (inr i)) = inr (inr i)

any-ranges_from :
    (a start last : ℕ) (xs : List ℕ)
    → start ≤ last
    → IsAscending last xs
    → ((start ≤ a) × (a ≤ last)) ⊎ In a xs
    → any (covers a) (ranges_from start last xs) ≡ true
unfolding ranges_from
any-ranges_from a start last [] le h (inl w) = ground (arith, w.0, w.1)
any-ranges_from a start last [] le h (inr i) = elim i [ ]
any-ranges_from a start last (x ∷ xs) le h c = elim (Bool-cases (x == last + 1)) [
  | inl e ↦
      rw e
        (any-ranges_from a start x xs (omega (arith, h.0)) h.1 (joined a start last x xs le h.0 c))
  | inr e ↦ elim (apart a start last x xs c) [
    | inl t ↦ rw e (rw t refl)
    | inr later ↦ rw e (ground (arith, any-ranges_from a x x xs (omega arith) h.1 later))
  ]
]

ranges_of_iff :
    (a : ℕ) (xs : List ℕ) → IsAscendingList xs → (any (covers a) (ranges_of xs) ≡ true) ↔ In a xs
unfolding ranges_of
ranges_of_iff a [] h = (λ t. cc, λ i. elim i [ ])
ranges_of_iff a (x ∷ xs) h = (
  λ t. elim (ranges_from-any a x x xs (omega arith) h t) [
    | inl w ↦ inl (omega (arith, w.0, w.1))
    | inr i ↦ inr i
  ],
  λ i. any-ranges_from a x x xs (omega arith) h (in_hand i),
)
  where
    in_hand : (a ≡ x) ⊎ In a xs → ((x ≤ a) × (a ≤ x)) ⊎ In a xs
    in_hand (inl e) = inl (omega (arith, e), omega (arith, e))
    in_hand (inr i) = inr i

-- A day lies in one of the ranges that `contiguous_ranges` makes exactly when it is one of the days given.
pub contiguous_ranges_iff :
    (a : ℕ) (days : List ℕ) → (any (covers a) (contiguous_ranges days) ≡ true) ↔ In a days
unfolding contiguous_ranges
contiguous_ranges_iff a days =
    let (to, from) = ranges_of_iff a (sorted_set days) (IsAscendingList-sorted_set days) in
    (λ t. In-sorted_set a days (to t), λ i. from (sorted_set-In a days i))
