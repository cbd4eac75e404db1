-- ===== src/Onboarding/Profile/Saved.antt =====
-- onboarding.py: `weekly_hours` and `_apply_hours`
use twirl.Prelude.{
  ℕ, ◌≡◌, refl, sym, ap, subst, ◌∙◌, ◌⊎◌, inl, inr, Bool, true, ◌||◌, some, List, [], ◌∷◌, ◌++◌,
  map, any, find-In, find-total, any-witness, In, ◌==◌, ==-refl, eq_of_==, arith, Bool-cases,
  if◌then◌else◌,
}
use twirl.Model.{ShopHours}
use twirl.Onboarding.Provider.{WeeklyHours, day_hours, apply_day, apply_days, apply_hours}
use twirl.Onboarding.Provider.Verified.{apply_hours-day_hours}
use twirl.Onboarding.Profile.{hours_on, weekly_hours}

abbrev has_day : ℕ → List ShopHours → Bool
has_day d rows = any (λ (r : ShopHours). r.weekday == d) rows

module _ (h : WeeklyHours) where
  has_day-mapped :
      (d e : ℕ) (rows : List ShopHours)
      → has_day e rows ≡ true
      → has_day e (map (λ (r : ShopHours). if r.weekday == d then day_hours h d else r) rows) ≡ true
  has_day-mapped d e [] k = k
  has_day-mapped d e (r ∷ rows) k = ground (arith, has_day-mapped d e rows)

  has_day-append :
      (e : ℕ) (rows more : List ShopHours)
      → (has_day e rows || has_day e more) ≡ true
      → has_day e (rows ++ more) ≡ true
  has_day-append e [] more k = k
  has_day-append e (r ∷ rows) more k = ground (arith, has_day-append e rows more)

  has_day-kept :
      (d e : ℕ) (rows : List ShopHours)
      → has_day e rows ≡ true
      → has_day e (apply_day h d rows) ≡ true
  unfolding apply_day
  has_day-kept d e rows k = elim (Bool-cases (has_day d rows)) [
    | inl t ↦ rw t (has_day-mapped d e rows k)
    | inr f ↦ rw f (has_day-append e rows (day_hours h d ∷ []) (rw k refl))
  ]

  has_day-set : (d : ℕ) (rows : List ShopHours) → has_day d (apply_day h d rows) ≡ true
  unfolding apply_day
  has_day-set d rows = elim (Bool-cases (has_day d rows)) [
    | inl t ↦ rw t (has_day-mapped d d rows t)
    | inr f ↦ rw f (has_day-append d rows (day_hours h d ∷ []) (rw (f, ==-refl d) refl))
  ]

  has_day-apply_days :
      (e : ℕ) (days : List ℕ) (rows : List ShopHours)
      → (has_day e rows ≡ true) ⊎ In e days
      → has_day e (apply_days h days rows) ≡ true
  unfolding apply_days
  has_day-apply_days e [] rows (inl k) = k
  has_day-apply_days e [] rows (inr i) = elim i [ ]
  has_day-apply_days e (d ∷ days) rows (inl k) =
      has_day-apply_days e days (apply_day h d rows) (inl (has_day-kept d e rows k))
  has_day-apply_days e (d ∷ days) rows (inr (inl same)) =
      has_day-apply_days e days (apply_day h d rows)
        (inl (subst (λ x. has_day x (apply_day h d rows) ≡ true) (sym same) (has_day-set d rows)))
  has_day-apply_days e (d ∷ days) rows (inr (inr i)) =
      has_day-apply_days e days (apply_day h d rows) (inr i)

  -- The row that is found for a day has the hours of the form.
  hours_on-apply_hours :
      (d : ℕ) (rows : List ShopHours)
      → In d (0 ∷ 1 ∷ 2 ∷ 3 ∷ 4 ∷ 5 ∷ 6 ∷ [])
      → hours_on d (apply_hours h rows) ≡ some (day_hours h d)
  unfolding apply_hours
  hours_on-apply_hours d rows i =
      let test = (λ (r : ShopHours). r.weekday == d) in
      let (r, held, t) =
        any-witness test (apply_hours h rows)
          (has_day-apply_days d (0 ∷ 1 ∷ 2 ∷ 3 ∷ 4 ∷ 5 ∷ 6 ∷ []) rows (inr i)) in
      let (found, e) = find-total test r (apply_hours h rows) held t in
      let (stored, u) = find-In test found (apply_hours h rows) e in
      let same : found.weekday ≡ d = eq_of_== found.weekday d u in
      let set =
        apply_hours-day_hours h rows found stored
          (subst (λ x. In x (0 ∷ 1 ∷ 2 ∷ 3 ∷ 4 ∷ 5 ∷ 6 ∷ [])) (sym same) i) in
      e ∙ ap some (set ∙ ap (day_hours h) same)

  -- The hours of a form that was applied to a shop are the hours that the form is filled with again,
  -- whatever rows the shop had.
  pub weekly_hours-apply_hours : (rows : List ShopHours) → weekly_hours (apply_hours h rows) ≡ h
  unfolding weekly_hours
  weekly_hours-apply_hours rows =
      rw
        (
          hours_on-apply_hours 0 rows (inl refl),
          hours_on-apply_hours 5 rows (inr (inr (inr (inr (inr (inl refl)))))),
          hours_on-apply_hours 6 rows (inr (inr (inr (inr (inr (inr (inl refl))))))),
        )
        refl
