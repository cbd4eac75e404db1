-- ===== src/Search/Shortcuts.antt =====
-- search.py: `earliest_date` and `upcoming_saturdays`
use twirl.Prelude.{
  ℕ, zero, suc, ◌+◌, ◌*◌, ◌≤◌, ◌<◌, ◌≡◌, refl, subst, sym, inl, inr, Bool, true, false, Option,
  none, some, List, [], ◌∷◌, Text, length, length-take_le, In, arith, eq_or_more, if◌then◌else◌,
}
use twirl.Exec.{Result, ok, err, and_then, Result-cases}
use twirl.Errors.{Error, invalid_dates}
use twirl.Model.{Db, Shop}
use twirl.Dates.{
  RentalDates, derive_rental_dates, validate_rental_dates, rules_for_shop, add_days, weekday,
}
use twirl.Search.Days.{
  published_shops, checked_dates, on_invalid_dates, can_serve, any_can_serve, earliest_from,
  earliest_date, to_saturday, served_weeks, upcoming_saturdays,
}
use twirl.Search.Paging.{In-take}

-- The rules of the shop derive dates for the day that are valid today.
pub record CanServe (shop : Shop) (day today : ℕ) : Type 0 where
  pub dates : RentalDates
  pub derived : derive_rental_dates day (rules_for_shop shop) ≡ ok dates
  pub valid : validate_rental_dates dates (rules_for_shop shop) today (some day) ≡ ok tt

abbrev pub IsServed : List Shop → (day today : ℕ) → Type 0
IsServed shops day today = (s : Shop) × In s shops × CanServe s day today

no_dates : (e : Error) → on_invalid_dates (err e) false ≡ ok true → ⊥
no_dates (invalid_dates code) h = cc
no_dates _ h = cc

can_serve-parts :
    (derived : Result Error RentalDates) (check : RentalDates → Result Error (Unit {0}))
    → on_invalid_dates
        (and_then (and_then derived (λ d. and_then (check d) (λ _. ok d))) (λ _. ok true))
        false
      ≡ ok true
    → (d : RentalDates) × (derived ≡ ok d) × (check d ≡ ok tt)
can_serve-parts (err e) check h = absurd (no_dates e h)
can_serve-parts (ok d) check h = elim (Result-cases (check d)) [
  | inl (tt, c) ↦ (d, refl, c)
  | inr (e, c) ↦ absurd (no_dates e (rw c at h))
]

can_serve-CanServe :
    (s : Shop) (day today : ℕ) → can_serve s day today ≡ ok true → CanServe s day today
unfolding can_serve checked_dates
can_serve-CanServe s day today h =
    let (d, e, v) =
      can_serve-parts (derive_rental_dates day (rules_for_shop s))
        (λ d. validate_rental_dates d (rules_for_shop s) today (some day)) h in
    record { dates = d; derived = e; valid = v }

CanServe-can_serve :
    (s : Shop) (day today : ℕ) → CanServe s day today → can_serve s day today ≡ ok true
unfolding can_serve checked_dates
CanServe-can_serve s day today c = rw (c.derived, c.valid) refl

any_can_serve-IsServed :
    (ss : List Shop) (day today : ℕ) → any_can_serve ss day today ≡ ok true → IsServed ss day today
unfolding any_can_serve
any_can_serve-IsServed [] day today h = cc
any_can_serve-IsServed (s ∷ ss) day today h = elim (Result-cases (can_serve s day today)) [
  | inl (true, e) ↦ (s, inl refl, can_serve-CanServe s day today e)
  | inl (false, e) ↦
      let (t, i, c) = any_can_serve-IsServed ss day today (rw e at h) in (t, inr i, c)
  | inr (x, e) ↦ absurd (ground (arith, e, h))
]

any_can_serve-none :
    (ss : List Shop) (day today : ℕ)
    → any_can_serve ss day today ≡ ok false
    → IsServed ss day today
    → ⊥
unfolding any_can_serve
any_can_serve-none [] day today h (t, i, c) = elim i [ ]
any_can_serve-none (s ∷ ss) day today h (t, inl e, c) =
    let served = CanServe-can_serve s day today (subst (λ z. CanServe z day today) e c) in
    ground (arith, served, h)
any_can_serve-none (s ∷ ss) day today h (t, inr i, c) =
    elim (Result-cases (can_serve s day today)) [
      | inl (true, e) ↦ absurd (ground (arith, e, h))
      | inl (false, e) ↦ any_can_serve-none ss day today (rw e at h) (t, i, c)
      | inr (x, e) ↦ absurd (ground (arith, e, h))
    ]

-- A day after today and within the horizon that some shop can serve, and no day before it that any can.
pub record IsEarliest (shops : List Shop) (today horizon day : ℕ) : Type 0 where
  pub later : today < day
  pub near : day ≤ today + horizon
  pub served : IsServed shops day today
  pub first : (d : ℕ) → today < d → d < day → IsServed shops d today → ⊥

abbrev pub EarliestOf : List Shop → (today horizon : ℕ) → Option ℕ → Type 0
EarliestOf shops today horizon (some day) = IsEarliest shops today horizon day
EarliestOf shops today horizon none =
    (d : ℕ) → today < d → d ≤ today + horizon → IsServed shops d today → ⊥

module _ (shops : List Shop) (today : ℕ) where
  abbrev NoneFrom : ℕ → ℕ → Type 0
  NoneFrom a b = (d : ℕ) → a ≤ d → d < b → IsServed shops d today → ⊥

  none_from : (a b : ℕ) → (IsServed shops a today → ⊥) → NoneFrom (a + 1) b → NoneFrom a b
  none_from a b h k d l u = elim (eq_or_more a d l) [
    | inl e ↦ subst (λ x. IsServed shops x today → ⊥) e h
    | inr m ↦ k d m u
  ]

  -- what the rounds from an offset on return
  abbrev Found : ℕ → ℕ → Option ℕ → Type 0
  Found offset rounds none = NoneFrom (today + offset) (today + offset + rounds)
  Found offset rounds (some day) =
      (today + offset ≤ day)
      × (day < today + offset + rounds)
      × IsServed shops day today
      × NoneFrom (today + offset) day

  Found-later :
      (offset rounds : ℕ) (o : Option ℕ)
      → (IsServed shops (today + offset) today → ⊥)
      → Found (suc offset) rounds o
      → Found offset (suc rounds) o
  Found-later offset rounds none h k =
      none_from (today + offset) (today + offset + suc rounds) h
        (λ x m v. k x (omega arith) (omega arith))
  Found-later offset rounds (some day) h (low, high, served, k) = (
    omega arith,
    omega arith,
    served,
    none_from (today + offset) day h (λ x m v. k x (omega arith) v),
  )

  added : (n day : ℕ) → add_days today n ≡ ok day → day ≡ today + n
  unfolding add_days
  added n day e = ground arith

  served_now :
      (offset rounds day : ℕ) (o : Option ℕ)
      → day ≡ today + offset
      → IsServed shops day today
      → some day ≡ o
      → Found offset (suc rounds) o
  served_now offset rounds day o at served e =
      subst (Found offset (suc rounds)) e
        (omega arith, omega arith, served, λ d l u. absurd (omega arith))

  earliest_from-Found :
      (offset rounds : ℕ) (o : Option ℕ)
      → earliest_from shops today offset rounds ≡ ok o
      → Found offset rounds o
  unfolding earliest_from
  earliest_from-Found offset zero none h = λ d l u. absurd (omega arith)
  earliest_from-Found offset zero (some day) h = cc
  earliest_from-Found offset (suc rounds) o h = elim (Result-cases (add_days today offset)) [
    | inl (day, e) ↦ elim (Result-cases (any_can_serve shops day today)) [
      | inl (true, f) ↦
          served_now offset rounds day o (added offset day e)
            (any_can_serve-IsServed shops day today f) (ground (arith, e, f, h))
      | inl (false, f) ↦
          Found-later offset rounds o
            (subst (λ d. IsServed shops d today → ⊥) (added offset day e)
              (any_can_serve-none shops day today f))
            (earliest_from-Found (suc offset) rounds o (rw f at (rw e at h)))
      | inr (x, f) ↦ absurd (ground (arith, e, f, h))
    ]
    | inr (x, e) ↦ absurd (ground (arith, e, h))
  ]

-- `earliest_date` returns the first day after today, within the horizon, for which the rules of some
-- published shop of the city give valid dates, and none where there is no such day.
pub earliest_date-EarliestOf :
    (city : Option Text) (today horizon : ℕ) (db : Db) (o : Option ℕ)
    → earliest_date city today horizon db ≡ ok o
    → EarliestOf (published_shops city db) today horizon o
unfolding earliest_date
earliest_date-EarliestOf city today horizon db none h =
    let found = earliest_from-Found (published_shops city db) today 1 horizon none h in
    λ d l u. found d (omega arith) (omega arith)
earliest_date-EarliestOf city today horizon db (some day) h =
    let (low, high, served, k) =
      earliest_from-Found (published_shops city db) today 1 horizon (some day) h in
    record {
      later = omega arith;
      near = omega arith;
      served = served;
      first = λ d l u. k d (omega arith) u;
    }

-- A Saturday after today and within the weeks of the horizon that some shop can serve.
pub record IsShortcut (shops : List Shop) (today horizon day : ℕ) : Type 0 where
  pub saturday : weekday day ≡ 5
  pub later : today < day
  pub near : day ≤ today + 7 * horizon
  pub served : IsServed shops day today

ok_inj : {A : Type 0} {a b : A} → ◌≡◌ {A = Result Error A} (ok a) (ok b) → a ≡ b
ok_inj h = cc

module _ (shops : List Shop) (today first : ℕ) where
  abbrev InWeeks : (week rounds day : ℕ) → Type 0
  InWeeks week rounds day = (k : ℕ) × (day ≡ first + 7 * k) × (week ≤ k) × (k < week + rounds)

  -- One candidate, before the later ones.
  week_row :
      (week rounds d day : ℕ) (rest days : List ℕ) (b : Bool)
      → (if b then d ∷ rest else rest) ≡ days
      → In day days
      → add_days first (7 * week) ≡ ok d
      → any_can_serve shops d today ≡ ok b
      → (In day rest → IsServed shops day today × InWeeks (suc week) rounds day)
      → IsServed shops day today × InWeeks week (suc rounds) day
  unfolding add_days
  week_row week rounds d day rest days false h i e f ih =
      let (served, (k, at, low, high)) = ih (subst (λ (l : List ℕ). In day l) (sym h) i) in
      (served, (k, at, omega arith, omega arith))
  week_row week rounds d day rest days true h i e f ih =
      elim (subst (λ (l : List ℕ). In day l) (sym h) i) [
        | inl same ↦ (
          rw same (any_can_serve-IsServed shops d today f),
          (week, ground (arith, same, e), omega arith, omega arith),
        )
        | inr j ↦
            let (served, (k, at, low, high)) = ih j in (served, (k, at, omega arith, omega arith))
      ]

  served_weeks-IsServed :
      (week rounds day : ℕ) (days : List ℕ)
      → served_weeks shops today first week rounds ≡ ok days
      → In day days
      → IsServed shops day today × InWeeks week rounds day
  unfolding served_weeks
  served_weeks-IsServed week zero day days h i =
      let none_left : days ≡ [] = ground (arith, h) in
      elim (subst (λ (l : List ℕ). In day l) none_left i) [ ]
  served_weeks-IsServed week (suc rounds) day days h i =
      elim (Result-cases (add_days first (7 * week))) [
        | inl (d, e) ↦ elim (Result-cases (any_can_serve shops d today)) [
          | inl (b, f) ↦ elim (Result-cases (served_weeks shops today first (suc week) rounds)) [
            | inl (rest, g) ↦
                week_row week rounds d day rest days b (ok_inj (rw (e, f, g) at h)) i e f
                  (served_weeks-IsServed (suc week) rounds day rest g)
            | inr (x, g) ↦ absurd (ground (arith, e, f, g, h))
          ]
          | inr (x, f) ↦ absurd (ground (arith, e, f, h))
        ]
        | inr (x, e) ↦ absurd (ground (arith, e, h))
      ]

first_saturday :
    (today first : ℕ)
    → add_days today (to_saturday today) ≡ ok first
    → (weekday first ≡ 5) × (today < first) × (first ≤ today + 7)
unfolding add_days
first_saturday today first e = (ground (arith, e), ground (arith, e), ground (arith, e))

shortcut :
    (shops : List Shop) (today horizon first day : ℕ)
    → (weekday first ≡ 5) × (today < first) × (first ≤ today + 7)
    → IsServed shops day today × InWeeks shops today first 0 horizon day
    → IsShortcut shops today horizon day
shortcut shops today horizon first day (sat, low, high) (served, (k, at, l, h)) = record {
  saturday = omega arith;
  later = omega arith;
  near = omega arith;
  served = served;
}

-- The shortcuts are Saturdays after today, within the weeks of the horizon, that some published shop of
-- the city can serve, and there are at most as many as asked for.
pub upcoming_saturdays-IsShortcut :
    (city : Option Text) (today count horizon : ℕ) (db : Db) (days : List ℕ)
    → upcoming_saturdays city today count horizon db ≡ ok days
    → (length days ≤ count)
      × ((day : ℕ) → In day days → IsShortcut (published_shops city db) today horizon day)
unfolding upcoming_saturdays
upcoming_saturdays-IsShortcut city today count horizon db days h =
    let shops = published_shops city db in
    elim (Result-cases (add_days today (to_saturday today))) [
      | inl (first, e) ↦ elim (Result-cases (served_weeks shops today first 0 horizon)) [
        | inl (all_days, f) ↦
            let kept = ok_inj (rw (e, f) at h) in
            (
              subst (λ (l : List ℕ). length l ≤ count) kept (length-take_le count all_days),
              λ day i. shortcut shops today horizon first day (first_saturday today first e) (
                  served_weeks-IsServed shops today first 0 horizon day all_days f
                    (In-take day count all_days (subst (λ (l : List ℕ). In day l) (sym kept) i))),
            )
        | inr (x, f) ↦ absurd (ground (arith, e, f, h))
      ]
      | inr (x, e) ↦ absurd (ground (arith, e, h))
    ]
