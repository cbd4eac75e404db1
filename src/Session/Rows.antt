-- ===== src/Session/Rows.antt =====
-- Rows with distinct primary keys, under the writes of the session.
use twirl.Prelude.{
  ◌≡◌, ◌≢◌, refl, sym, ◌⊎◌, inl, inr, Bool, some, List, [], ◌∷◌, ◌==◌, if◌then◌else◌, find, where_,
  insert_by, sort_by, In-insert_by, In-sort_by, Bool-cases, In, In-where, ==-refl, ==-ne, ne_of_==,
  eq_of_==,
}
use twirl.Model.{Booking}
use twirl.Session.{replace_row}

pub In-replace_row :
    (b c : Booking) (rows : List Booking)
    → In c (replace_row b rows)
    → (c ≡ b) ⊎ (In c rows × (c.id ≢ b.id))
In-replace_row b c [] h = elim h [ ]
In-replace_row b c (r ∷ rows) (inr h) = elim (In-replace_row b c rows h) [
  | inl e ↦ inl e
  | inr (i, ne) ↦ inr (inr i, ne)
]
In-replace_row b c (r ∷ rows) (inl e) = elim (Bool-cases (r.id == b.id)) [
  | inl t ↦ inl (rw t at e)
  | inr f ↦ let e' : c ≡ r = rw f at e in inr (inl e', ne_of_== c.id b.id (rw e' f))
]

pub replace_row-In :
    (b c : Booking) (rows : List Booking) → In c rows → c.id ≢ b.id → In c (replace_row b rows)
replace_row-In b c [] i ne = i
replace_row-In b c (r ∷ rows) (inl e) ne = inl (rw (==-ne r.id b.id (λ q. ne (cc))) e)
replace_row-In b c (r ∷ rows) (inr i) ne = inr (replace_row-In b c rows i ne)

-- The primary key: no two rows of the list have one id.
abbrev pub Distinct : List Booking → Type 0
Distinct [] = Unit
Distinct (b ∷ rows) = ((c : Booking) → In c rows → c.id ≢ b.id) × Distinct rows

pub find-Distinct :
    (b : Booking) (rows : List Booking)
    → Distinct rows
    → In b rows
    → find (λ (c : Booking). c.id == b.id) rows ≡ some b
find-Distinct b [] d i = elim i [ ]
find-Distinct b (r ∷ rows) d (inl e) = rw e (rw (==-refl r.id) refl)
find-Distinct b (r ∷ rows) d (inr i) =
    rw (==-ne r.id b.id (λ q. d.0 b i (sym q))) (find-Distinct b rows d.1 i)

-- Two rows of one id are one row.
pub same_row :
    (b c : Booking) (rows : List Booking)
    → Distinct rows
    → In b rows
    → In c rows
    → b.id ≡ c.id
    → b ≡ c
same_row b c [] d i j e = elim i [ ]
same_row b c (r ∷ rows) d (inl p) (inl q) e = cc
same_row b c (r ∷ rows) d (inl p) (inr j) e = absurd (d.0 c j (cc))
same_row b c (r ∷ rows) d (inr i) (inl q) e = absurd (d.0 b i (cc))
same_row b c (r ∷ rows) d (inr i) (inr j) e = same_row b c rows d.1 i j e

replaced_id : (m r : Booking) → (if r.id == m.id then m else r).id ≡ r.id
replaced_id m r = elim (Bool-cases (r.id == m.id)) [
  | inl e ↦ rw e (sym (eq_of_== r.id m.id e))
  | inr e ↦ rw e refl
]

id_of_replaced :
    (m c : Booking) (rows : List Booking)
    → In c (replace_row m rows)
    → (r : Booking) × In r rows × (c.id ≡ r.id)
id_of_replaced m c [] i = elim i [ ]
id_of_replaced m c (r ∷ rows) (inl e) = (r, inl refl, rw e (replaced_id m r))
id_of_replaced m c (r ∷ rows) (inr i) = let (x, j, e) = id_of_replaced m c rows i in (x, inr j, e)

pub Distinct-replace_row :
    (m : Booking) (rows : List Booking) → Distinct rows → Distinct (replace_row m rows)
Distinct-replace_row m [] d = tt
Distinct-replace_row m (r ∷ rows) d = (
  λ c i q. let (x, j, e) = id_of_replaced m c rows i in d.0 x j (cc (replaced_id m r)),
  Distinct-replace_row m rows d.1,
)

pub Distinct-where :
    (p : Booking → Bool) (rows : List Booking) → Distinct rows → Distinct (where_ p rows)
Distinct-where p [] d = tt
Distinct-where p (r ∷ rows) d = elim (Bool-cases (p r)) [
  | inl e ↦ rw e (λ c i. d.0 c (In-where p c rows i).0, Distinct-where p rows d.1)
  | inr e ↦ rw e (Distinct-where p rows d.1)
]

-- The row that replaces another stands in the table.
pub replace_row-hit :
    (m b : Booking) (rows : List Booking) → m.id ≡ b.id → In b rows → In m (replace_row m rows)
replace_row-hit m b [] e i = i
replace_row-hit m b (r ∷ rows) e (inl q) = inl (rw (← q) (rw (← e) (rw (==-refl m.id) refl)))
replace_row-hit m b (r ∷ rows) e (inr i) = inr (replace_row-hit m b rows e i)

Distinct-insert_by :
    (before : Booking → Booking → Bool) (x : Booking) (ys : List Booking)
    → ((c : Booking) → In c ys → c.id ≢ x.id)
    → Distinct ys
    → Distinct (insert_by before x ys)
unfolding insert_by
Distinct-insert_by before x [] ne d = (ne, tt)
Distinct-insert_by before x (y ∷ ys) ne d = elim (Bool-cases (before x y)) [
  | inl e ↦ rw e (ne, d)
  | inr e ↦ rw e (
    λ c i q. elim (In-insert_by before c x ys i) [
      | inl p ↦ ne y (inl refl) (cc)
      | inr j ↦ d.0 c j q
    ],
    Distinct-insert_by before x ys (λ c i. ne c (inr i)) d.1,
  )
]

pub Distinct-sort_by :
    (before : Booking → Booking → Bool) (rows : List Booking)
    → Distinct rows
    → Distinct (sort_by before rows)
unfolding sort_by
Distinct-sort_by before [] d = tt
Distinct-sort_by before (x ∷ rows) d =
    Distinct-insert_by before x (sort_by before rows) (λ c i. d.0 c (In-sort_by before c rows i))
      (Distinct-sort_by before rows d.1)
