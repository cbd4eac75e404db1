-- ===== src/Otp/Verify.antt =====
-- otp.py: `verify_code`
use twirl.Prelude.{
  ℕ, ◌+◌, ◌<◌, ◌≡◌, refl, subst, inl, inr, true, Option, none, some, List, [], ◌∷◌, map, Text,
  text_eq, strip, arith, where_, sort_by, ◌==◌, In, In-where, In-sort_by, first-In, Bool-cases,
}
use twirl.Otp.{
  CodePurpose, PhoneCode, PhoneCodes, max_guesses, newest_first, hash, set_guess, guess,
  check_guess, is_live, newest_live, verify_code,
}

module _ (mac : Text → Text → Text) (secret : Text) where
  pub newest_live-In :
      (phone : Text) (purpose : CodePurpose) (now : ℕ) (t : PhoneCodes) (r : PhoneCode)
      → newest_live mac secret phone purpose now t ≡ some r
      → In r t.rows × (is_live mac secret phone purpose now r ≡ true)
  unfolding newest_live
  newest_live-In phone purpose now t r h =
      let live = where_ (is_live mac secret phone purpose now) t.rows in
      In-where (is_live mac secret phone purpose now) r t.rows
        (In-sort_by newest_first r live (first-In r (sort_by newest_first live) h))

  -- A code that answers to a right guess, and the table after it.
  pub record IsVerified (phone : Text) (purpose : CodePurpose) (code : Text) (now : ℕ)
      (t t' : PhoneCodes) (r : PhoneCode) : Type 0 where
    pub stored : In r t.rows
    pub live : is_live mac secret phone purpose now r ≡ true
    pub guesses_left : r.attempts < max_guesses
    pub right : text_eq r.code_hash (hash mac secret phone (strip code)) ≡ true
    -- the code is spent
    pub consumed : (c : PhoneCode) → In c t'.rows → c.id ≡ r.id → c.consumed_at ≡ some now

  set_guess-consumed :
      (id n now : ℕ) (c : PhoneCode) (rows : List PhoneCode)
      → In c (map (set_guess mac secret id n (some now)) rows)
      → c.id ≡ id
      → c.consumed_at ≡ some now
  set_guess-consumed id n now c [] i e = elim i [ ]
  set_guess-consumed id n now c (r ∷ rows) (inl same) e = elim (Bool-cases (r.id == id)) [
    | inl own ↦ ground arith
    | inr other ↦ ground arith
  ]
  set_guess-consumed id n now c (r ∷ rows) (inr i) e = set_guess-consumed id n now c rows i e

  -- What a row that took a right guess says.
  right_guess :
      (phone : Text) (code : Text) (now : ℕ) (o : Option PhoneCode) (t : PhoneCodes)
      → (check_guess mac secret phone code now o t).0 ≡ true
      → (r : PhoneCode) × (o ≡ some r)
        × (r.attempts < max_guesses)
        × (text_eq r.code_hash (hash mac secret phone (strip code)) ≡ true)
  unfolding guess
  right_guess phone code now none t h = cc
  right_guess phone code now (some r) t h = (r, refl, ground arith, ground arith)

  after_right_guess :
      (phone : Text) (code : Text) (now : ℕ) (r : PhoneCode) (t : PhoneCodes)
      → r.attempts < max_guesses
      → text_eq r.code_hash (hash mac secret phone (strip code)) ≡ true
      → (check_guess mac secret phone code now (some r) t).1.rows
        ≡ map (set_guess mac secret r.id (r.attempts + 1) (some now)) t.rows
  unfolding guess
  after_right_guess phone code now r t few right = ground arith

  -- `verify_code` says yes only to a guess whose hash is that of a stored code for the phone and the
  -- purpose that has not expired, was not used and has had fewer than three guesses; afterwards that code
  -- is used.
  pub verify_code-IsVerified :
      (phone : Text) (purpose : CodePurpose) (code : Text) (now : ℕ) (t : PhoneCodes)
      → (verify_code mac secret phone purpose code now t).0 ≡ true
      → (r : PhoneCode) × IsVerified phone purpose code now t
          (verify_code mac secret phone purpose code now t).1
          r
  unfolding verify_code
  verify_code-IsVerified phone purpose code now t h =
      let (r, e, few, right) =
        right_guess phone code now (newest_live mac secret phone purpose now t) t h in
      let (stored, live) = newest_live-In phone purpose now t r e in
      (
        r,
        record {
          stored = stored;
          live = live;
          guesses_left = few;
          right = right;
          consumed = λ c i same.
              set_guess-consumed r.id (r.attempts + 1) now c t.rows
                (subst (λ (l : List PhoneCode). In c l)
                  (after_right_guess phone code now r t few right) (rw e at i))
                same;
        },
      )
