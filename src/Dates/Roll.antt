-- ===== src/Dates/Roll.antt =====
-- booking/dates.py: `_roll`
use twirl.Prelude.{
  ℕ, zero, suc, ◌+◌, ◌-◌, ◌≤◌, ◌<◌, ◌≡◌, ◌≢◌, sym, subst, ◌⊎◌, inl, inr, true, false, arith,
  eq_or_more, Bool-cases,
}
use twirl.Exec.{ok, err}
use twirl.Errors.{invalid_dates, no_open_day}
use twirl.Dates.{ShopRules, backward, forward, sub_days, add_days, is_open, move, roll, date_max}

-- Every day from `a` up to and without `b` is closed.
abbrev pub IsClosedFrom : ShopRules → ℕ → ℕ → Type 0
IsClosedFrom rules a b = (d : ℕ) → a ≤ d → d < b → is_open rules d ≡ false

pub record NearestAfter (rules : ShopRules) (day rounds r : ℕ) : Type 0 where
  pub at_least : day ≤ r
  pub in_reach : r < day + rounds
  pub open_day : is_open rules r ≡ true
  pub closed_before : IsClosedFrom rules day r

pub record NearestBefore (rules : ShopRules) (day rounds r : ℕ) : Type 0 where
  pub at_most : r ≤ day
  pub in_reach : day < r + rounds
  pub open_day : is_open rules r ≡ true
  pub closed_after : IsClosedFrom rules (r + 1) (day + 1)

module _ (rules : ShopRules) where
  closed_step :
      (day b : ℕ)
      → is_open rules day ≡ false
      → IsClosedFrom rules (day + 1) b
      → IsClosedFrom rules day b
  closed_step day b c h d le lt = elim (eq_or_more day d le) [
    | inl e ↦ subst (λ x. is_open rules x ≡ false) e c
    | inr l ↦ h d l lt
  ]

  closed_back :
      (a day : ℕ)
      → is_open rules day ≡ false
      → IsClosedFrom rules a day
      → IsClosedFrom rules a (day + 1)
  closed_back a day c h d le lt = elim (eq_or_more d day (omega arith)) [
    | inl e ↦ subst (λ x. is_open rules x ≡ false) (sym e) c
    | inr l ↦ h d le (omega arith)
  ]

  -- One round of the loop forward.
  roll-suc_forward :
      (n day r : ℕ)
      → roll (suc n) day forward rules ≡ ok r
      → ((is_open rules day ≡ true) × (r ≡ day))
        ⊎ ((is_open rules day ≡ false) × (roll n (day + 1) forward rules ≡ ok r))
  unfolding roll move add_days
  roll-suc_forward n day r h = ground arith

  roll-suc_backward :
      (n day r : ℕ)
      → roll (suc n) day backward rules ≡ ok r
      → ((is_open rules day ≡ true) × (r ≡ day))
        ⊎ ((is_open rules day ≡ false) × (1 < day) × (roll n (day - 1) backward rules ≡ ok r))
  unfolding roll move sub_days
  roll-suc_backward n day r h = ground arith

  here_after : (n day r : ℕ) → is_open rules day ≡ true → r ≡ day → NearestAfter rules day (suc n) r
  here_after n day r o e = record {
    at_least = omega arith;
    in_reach = omega arith;
    open_day = rw e o;
    closed_before = λ d le lt. absurd (omega arith);
  }

  later_after :
      (n day r : ℕ)
      → is_open rules day ≡ false
      → NearestAfter rules (day + 1) n r
      → NearestAfter rules day (suc n) r
  later_after n day r c m = record {
    at_least = omega (arith, m.at_least);
    in_reach = omega (arith, m.in_reach);
    open_day = m.open_day;
    closed_before = closed_step day r c m.closed_before;
  }

  here_before :
      (n day r : ℕ) → is_open rules day ≡ true → r ≡ day → NearestBefore rules day (suc n) r
  here_before n day r o e = record {
    at_most = omega arith;
    in_reach = omega arith;
    open_day = rw e o;
    closed_after = λ d le lt. absurd (omega arith);
  }

  earlier_before :
      (n day r : ℕ)
      → is_open rules day ≡ false
      → 1 < day
      → NearestBefore rules (day - 1) n r
      → NearestBefore rules day (suc n) r
  earlier_before n day r c big m = record {
    at_most = omega (arith, m.at_most);
    in_reach = omega (arith, m.in_reach);
    open_day = m.open_day;
    closed_after = closed_back (r + 1) day c (λ d le lt. m.closed_after d le (omega arith));
  }

  -- Rolling forward ends at the first open day from `day` on, within the rounds given.
  pub roll-forward : (n day r : ℕ) → roll n day forward rules ≡ ok r → NearestAfter rules day n r
  roll-forward zero day r h = unfold roll in absurd (cc)
  roll-forward (suc n) day r h = elim (roll-suc_forward n day r h) [
    | inl (o, e) ↦ here_after n day r o e
    | inr (c, rest) ↦ later_after n day r c (roll-forward n (day + 1) r rest)
  ]

  -- Rolling backward ends at the last open day up to `day`, within the rounds given.
  pub roll-backward : (n day r : ℕ) → roll n day backward rules ≡ ok r → NearestBefore rules day n r
  roll-backward zero day r h = unfold roll in absurd (cc)
  roll-backward (suc n) day r h = elim (roll-suc_backward n day r h) [
    | inl (o, e) ↦ here_before n day r o e
    | inr (c, big, rest) ↦ earlier_before n day r c big (roll-backward n (day - 1) r rest)
  ]

  give_up_step :
      (n day : ℕ)
      → roll (suc n) day forward rules ≡ err (invalid_dates no_open_day)
      → (is_open rules day ≡ false)
        × (roll n (day + 1) forward rules ≡ err (invalid_dates no_open_day))
  unfolding roll move add_days
  give_up_step n day h = ground arith

  -- Giving up means that none of the `n` days from `day` on is open.
  pub roll-no_open_day :
      (n day : ℕ)
      → roll n day forward rules ≡ err (invalid_dates no_open_day)
      → IsClosedFrom rules day (day + n)
  roll-no_open_day zero day h d le lt = absurd (omega arith)
  roll-no_open_day (suc n) day h d le lt =
      let (c, rest) = give_up_step n day h in
      closed_step day (day + suc n) c
        (λ x xl xu. roll-no_open_day n (day + 1) rest x xl (omega arith)) d le lt

  not_here : (day d : ℕ) → is_open rules d ≡ true → is_open rules day ≡ false → day ≢ d
  not_here day d o c e = cc

  -- Where a day in reach is open, rolling forward finds a day.
  pub roll-forward_total :
      (n day d : ℕ)
      → is_open rules d ≡ true
      → day ≤ d
      → d < day + n
      → d ≤ date_max
      → (r : ℕ) × (roll n day forward rules ≡ ok r)
  unfolding roll move add_days
  roll-forward_total zero day d o le lt fits = absurd (omega arith)
  roll-forward_total (suc n) day d o le lt fits = elim (Bool-cases (is_open rules day)) [
    | inl e ↦ (day, rw e)
    | inr c ↦
        let ne = not_here day d o c in
        let (r, e) = roll-forward_total n (day + 1) d o (omega arith) (omega arith) fits in
        (r, ground arith)
  ]
