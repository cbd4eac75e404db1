-- ===== src/Otp/Guesses.antt =====
-- otp.py: the guesses at one code, over any run of the calls.
use twirl.Prelude.{
  ap, ◌∙◌, ℕ, suc, ◌+◌, ◌≤◌, ◌<◌, ◌≡◌, ◌≢◌, refl, sym, ◌⊎◌, inl, inr, Bool, true, false, Option,
  none, some, List, [], ◌∷◌, ◌++◌, map, Text, arith, ltb, leb, ◌==◌, if◌then◌else◌, Bool-cases,
  Option-cases, In, In-append, map-In, eq_of_==, ne_of_==,
}
use twirl.Otp.{
  CodePurpose, PhoneCode, PhoneCodes, six_digits, new_code, seconds_until_resend, sent_last_hour,
  issue_code, set_guess, guess, check_guess, newest_live, verify_code,
}
use twirl.Otp.Limit.{Call, sent, tried, answer, answer_all}
use twirl.Otp.Verify.{newest_live-In}

-- The primary key of the table and its sequence.
pub record AreKeyed (t : PhoneCodes) : Type 0 where
  pub below : (r : PhoneCode) → In r t.rows → r.id < t.seq
  pub unique : (r s : PhoneCode) → In r t.rows → In s t.rows → r.id ≡ s.id → r ≡ s

-- After `k` guesses at the code with that id.
record HasTaken (id k : ℕ) (t : PhoneCodes) : Type 0 where
  pub issued : id < t.seq
  pub even :
      (c d : PhoneCode)
      → In c t.rows
      → In d t.rows
      → c.id ≡ id
      → d.id ≡ id
      → c.attempts ≡ d.attempts
  pub spent : (c : PhoneCode) → In c t.rows → c.id ≡ id → (k ≤ c.attempts) ⊎ (3 ≤ c.attempts)

fewer : (id k m : ℕ) (t : PhoneCodes) → m ≤ k → HasTaken id k t → HasTaken id m t
fewer id k m t le h = record {
  issued = h.issued;
  even = h.even;
  spent = λ c i e. elim (h.spent c i e) [ inl a ↦ inl (omega (arith, a, le)) | inr a ↦ inr a ];
}

module _ (mac : Text → Text → Text) (secret : Text) where
  -- Whether the call guesses at the code with that id.
  abbrev pub at_code : ℕ → PhoneCodes → Call mac secret → Bool
  at_code id t (sent phone purpose now drawn) = false
  at_code id t (tried phone purpose code now) = elim (newest_live mac secret phone purpose now t) [
    | none ↦ false
    | some r ↦ r.id == id
  ]

  -- How many calls of a run guess at it.
  abbrev pub guesses : ℕ → PhoneCodes → List (Call mac secret) → ℕ
  guesses id t [] = 0
  guesses id t (c ∷ calls) =
      (if at_code id t c then 1 else 0) + guesses id (answer mac secret t c) calls

  set_guess-cases :
      (id n : ℕ) (o : Option ℕ) (a : PhoneCode)
      → ((a.id ≡ id)
          × ((set_guess mac secret id n o a).id ≡ id)
          × ((set_guess mac secret id n o a).attempts ≡ n))
        ⊎ ((a.id ≢ id) × (set_guess mac secret id n o a ≡ a))
  set_guess-cases id n o a = elim (Bool-cases (a.id == id)) [
    | inl e ↦ inl (eq_of_== a.id id e, rw e (eq_of_== a.id id e), rw e refl)
    | inr e ↦ inr (ne_of_== a.id id e, rw e refl)
  ]

  -- A guess at another code.
  other_guess :
      (id k n : ℕ) (s : PhoneCode) (o : Option ℕ) (t : PhoneCodes)
      → s.id ≢ id
      → HasTaken id k t
      → HasTaken id k (record t { rows = map (set_guess mac secret s.id n o) t.rows })
  other_guess id k n s o t ne h = record {
    issued = h.issued;
    even = λ c d i j e f. h.even c d (before c i e) (before d j f) e f;
    spent = λ c i e. h.spent c (before c i e) e;
  }
    where
      before :
          (c : PhoneCode)
          → In c (map (set_guess mac secret s.id n o) t.rows)
          → c.id ≡ id
          → In c t.rows
      before c i e =
          let (a, j, same) = map-In (set_guess mac secret s.id n o) c t.rows i in
          elim (set_guess-cases s.id n o a) [
            | inl (own, kept, count) ↦ absurd (ne (cc (same, kept, e)))
            | inr (other, kept) ↦ let back : a ≡ c = cc in rw (sym back) j
          ]

  -- A guess at this code that it still takes.
  own_guess :
      (id k : ℕ) (s : PhoneCode) (o : Option ℕ) (t : PhoneCodes)
      → s.id ≡ id
      → In s t.rows
      → s.attempts < 3
      → HasTaken id k t
      → HasTaken id
          (suc k)
          (record t { rows = map (set_guess mac secret s.id (s.attempts + 1) o) t.rows })
  own_guess id k s o t own i few h = record {
    issued = h.issued;
    even = λ c d j l e f. cc (count c j e, count d l f);
    spent = λ c j e. inl (elim (h.spent s i own) [
      | inl a ↦ omega (arith, a, count c j e)
      | inr a ↦ omega (arith, a, few)
    ]);
  }
    where
      count :
          (c : PhoneCode)
          → In c (map (set_guess mac secret s.id (s.attempts + 1) o) t.rows)
          → c.id ≡ id
          → c.attempts ≡ s.attempts + 1
      count c j e =
          let (a, l, same) = map-In (set_guess mac secret s.id (s.attempts + 1) o) c t.rows j in
          elim (set_guess-cases s.id (s.attempts + 1) o a) [
            | inl (at, kept, n) ↦ cc (same, n)
            | inr (other, kept) ↦ absurd (other (cc (same, kept, e, own)))
          ]

  abbrev Steps : ℕ → ℕ → PhoneCodes → Call mac secret → Type 0
  Steps id k t c = HasTaken id ((if at_code id t c then 1 else 0) + k) (answer mac secret t c)

  guessed :
      (id k : ℕ) (t : PhoneCodes) (phone : Text) (code : Text) (now : ℕ) (s : PhoneCode)
      → In s t.rows
      → HasTaken id k t
      → HasTaken id
          ((if s.id == id then 1 else 0) + k)
          (check_guess mac secret phone code now (some s) t).1
  unfolding guess
  guessed id k t phone code now s i h = elim (Bool-cases (s.id == id)) [
    | inl own ↦
        let at = eq_of_== s.id id own in
        elim (Bool-cases (leb 3 s.attempts)) [
          | inl e ↦
              rw (own, e)
                (fewer id (suc k) (1 + k) t (omega arith) (record {
                  issued = h.issued;
                  even = h.even;
                  spent = λ c j f. inr (ground (arith, e, h.even c s j i f at));
                }))
          | inr e ↦
              rw (own, e)
                (fewer id (suc k) (1 + k) _ (omega arith)
                  (own_guess id k s _ t at i (ground (arith, e)) h))
        ]
    | inr other ↦ elim (Bool-cases (leb 3 s.attempts)) [
      | inl e ↦ rw (other, e) (fewer id k (0 + k) t (omega arith) h)
      | inr e ↦
          rw (other, e)
            (fewer id k (0 + k) _ (omega arith)
              (other_guess id k _ s _ t (ne_of_== s.id id other) h))
    ]
  ]

  step : (id k : ℕ) (t : PhoneCodes) (c : Call mac secret) → HasTaken id k t → Steps id k t c
  unfolding issue_code verify_code
  step id k t (sent phone purpose now drawn) h =
      elim (Bool-cases (ltb 0 (seconds_until_resend t phone now))) [
        | inl e ↦ rw (e, answer) (fewer id k (0 + k) t (omega arith) h)
        | inr e ↦ elim (Bool-cases (leb 5 (sent_last_hour t phone now))) [
          | inl f ↦ rw (e, f, answer) (fewer id k (0 + k) t (omega arith) h)
          | inr f ↦
              rw (e, f, answer)
                (fewer id k (0 + k) _ (omega arith) (record {
                  issued = omega (arith, h.issued);
                  even = λ c d i j p q. h.even c d (before c i p) (before d j q) p q;
                  spent = λ c i p. h.spent c (before c i p) p;
                }))
        ]
      ]
    where
      before :
          (c : PhoneCode)
          → In c (t.rows ++ new_code mac secret t.seq phone purpose (six_digits drawn) now ∷ [])
          → c.id ≡ id
          → In c t.rows
      before c i e = elim (In-append c t.rows _ i) [
        | inl j ↦ j
        | inr (inl new) ↦ absurd (ground (arith, new, e, h.issued))
        | inr (inr j) ↦ elim j [ ]
      ]
  step id k t (tried phone purpose code now) h =
      elim (Option-cases (newest_live mac secret phone purpose now t)) [
        | inl e ↦ rw (e, at_code, answer) (fewer id k (0 + k) t (omega arith) h)
        | inr (s, e) ↦
            let (i, live) = newest_live-In mac secret phone purpose now t s e in
            rw (e, at_code, answer) (guessed id k t phone code now s i h)
      ]

  run_taken :
      (id : ℕ) (calls : List (Call mac secret)) (t : PhoneCodes) (k : ℕ)
      → HasTaken id k t
      → HasTaken id (guesses id t calls + k) (answer_all mac secret t calls)
  run_taken id [] t k h = fewer id k (0 + k) t (omega arith) h
  run_taken id (c ∷ calls) t k h =
      let rest = run_taken id calls (answer mac secret t c) _ (step id k t c h) in
      fewer id _ _ (answer_all mac secret (answer mac secret t c) calls) (omega arith) rest

  -- Once three calls have guessed at a code that was stored, whatever else was asked for and guessed in
  -- between, no guess at it is accepted any more, the right one included.
  pub guesses_limit :
      (t : PhoneCodes) (calls : List (Call mac secret)) (r : PhoneCode)
      → AreKeyed t
      → In r t.rows
      → 3 ≤ guesses r.id t calls
      → (phone : Text) (purpose : CodePurpose) (code : Text) (now : ℕ)
      → at_code r.id (answer_all mac secret t calls) (tried phone purpose code now) ≡ true
      → (verify_code mac secret phone purpose code now (answer_all mac secret t calls)).0 ≡ false
  unfolding verify_code
  guesses_limit t calls r keys i three phone purpose code now at =
      let after = answer_all mac secret t calls in
      let start : HasTaken r.id 0 t = record {
        issued = keys.below r i;
        even = λ c d j l e f. ap (λ (x : PhoneCode). x.attempts) (keys.unique c d j l (e ∙ sym f));
        spent = λ c j e. inl (omega arith);
      } in
      let h = run_taken r.id calls t 0 start in
      elim (Option-cases (newest_live mac secret phone purpose now after)) [
        | inl e ↦ rw e refl
        | inr (s, e) ↦
            let (j, live) = newest_live-In mac secret phone purpose now after s e in
            let own = eq_of_== s.id r.id (rw (e, at_code) at at) in
            elim (h.spent s j own) [
              | inl a ↦
                  let full : leb 3 s.attempts ≡ true = ground (arith, a, three) in rw (e, full) refl
              | inr a ↦ let full : leb 3 s.attempts ≡ true = ground (arith, a) in rw (e, full) refl
            ]
      ]
