-- ===== src/Otp/Issue.antt =====
-- otp.py: the wait between two sends.
use twirl.Prelude.{
  ℕ, ◌+◌, ◌-◌, ◌≤◌, ◌<◌, ◌≡◌, inl, inr, true, none, some, List, [], ◌∷◌, Text, text_eq, arith,
  first, where_, sort_by, In, where-In, sort_by-In, Option-cases, IsOrder, first-sort_by,
}
use twirl.Exec.{ok}
use twirl.Otp.{
  CodePurpose, PhoneCode, PhoneCodes, resend_after, max_sends_per_hour, newest_first, latest,
  round_seconds, wait_after, seconds_until_resend, sent_last_hour, issue_code,
}

newest_first-IsOrder : IsOrder newest_first
newest_first-IsOrder = record { total = λ a b. ground arith; trans = λ a b c h k. ground arith }

latest_is_newest :
    (phone : Text) (t : PhoneCodes) (m r : PhoneCode)
    → latest phone t ≡ some m
    → In r t.rows
    → text_eq r.phone phone ≡ true
    → r.created_at ≤ m.created_at
unfolding latest
latest_is_newest phone t m r h i own =
    let before =
      first-sort_by newest_first newest_first-IsOrder
        (where_ (λ (c : PhoneCode). text_eq c.phone phone) t.rows) m r h
        (where-In (λ (c : PhoneCode). text_eq c.phone phone) r t.rows i own) in
    ground arith

no_first : (xs : List PhoneCode) (r : PhoneCode) → In r xs → first xs ≡ none → ⊥
no_first [] r i h = i
no_first (x ∷ xs) r i h = cc

some_latest :
    (phone : Text) (t : PhoneCodes) (r : PhoneCode)
    → In r t.rows
    → text_eq r.phone phone ≡ true
    → latest phone t ≡ none
    → ⊥
unfolding latest
some_latest phone t r i own h =
    let own_rows = where_ (λ (c : PhoneCode). text_eq c.phone phone) t.rows in
    no_first (sort_by newest_first own_rows) r
      (sort_by-In newest_first r own_rows
        (where-In (λ (c : PhoneCode). text_eq c.phone phone) r t.rows i own))
      h

-- A wait that rounds to nothing is at most half a second.
no_wait : (us : ℕ) → round_seconds us ≡ 0 → us ≤ 500000
no_wait us h = ground arith

-- What an issued code says of the state before it.
record IsIssued (phone : Text) (now : ℕ) (t : PhoneCodes) : Type 0 where
  waited : wait_after (latest phone t) now ≡ 0
  below : sent_last_hour t phone now < max_sends_per_hour

module _ (mac : Text → Text → Text) (secret : Text) where
  issued :
      (phone : Text) (purpose : CodePurpose) (now drawn : ℕ) (t : PhoneCodes) (code : Text)
      → (issue_code mac secret phone purpose now drawn t).0 ≡ ok code
      → IsIssued phone now t
  unfolding issue_code seconds_until_resend
  issued phone purpose now drawn t code h = record { waited = ground arith; below = ground arith }

  -- A code is sent only where every earlier code of the phone is at least 29.5 seconds old: the thirty
  -- seconds of RESEND_AFTER, less the half that the rounding to seconds gives away.
  pub issue_code-spaced :
      (phone : Text) (purpose : CodePurpose) (now drawn : ℕ) (t : PhoneCodes) (code : Text)
      → (issue_code mac secret phone purpose now drawn t).0 ≡ ok code
      → (r : PhoneCode) → In r t.rows
      → text_eq r.phone phone ≡ true
      → r.created_at + 29500000 ≤ now
  issue_code-spaced phone purpose now drawn t code h r i own =
      let w = (issued phone purpose now drawn t code h).waited in
      elim (Option-cases (latest phone t)) [
        | inl e ↦ absurd (some_latest phone t r i own e)
        | inr (m, e) ↦
            let n = no_wait (m.created_at + resend_after - now) (rw e at w) in
            omega (arith, latest_is_newest phone t m r e i own, n)
      ]
