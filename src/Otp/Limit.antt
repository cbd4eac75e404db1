-- ===== src/Otp/Limit.antt =====
-- otp.py: runs of `issue_code` and `verify_code`, and the hour before a send.
use twirl.Prelude.{
  ℕ, suc, ◌≤◌, ◌<◌, ◌≡◌, refl, subst, ◌⊎◌, inl, inr, true, false, Option, none, some, List, [], ◌∷◌,
  ◌++◌, map, Text, text_eq, eq_of_text_eq, arith, ltb, leb, if◌then◌else◌, Bool-cases,
}
use mathlib.Core.List.{append-nil}
use twirl.RateLimit.Recent.{recent}
use twirl.Otp.{
  CodePurpose, PhoneCode, PhoneCodes, max_sends_per_hour, send_window, sent_last_hour, six_digits,
  new_code, seconds_until_resend, issue_code, set_guess, guess, check_guess, newest_live,
  verify_code,
}
use twirl.Otp.Sends.{
  AllUpTo-later, AllUpTo-snoc, IsPaced, limited_with_now, sends, sends-append,
  sent_last_hour-recent,
}

module _ (mac : Text → Text → Text) (secret : Text) where
  -- A call of the web routes.
  pub data Call : Type 0 where
    sent : Text → CodePurpose → (now drawn : ℕ) → Call
    tried : Text → CodePurpose → Text → (now : ℕ) → Call

  abbrev pub time : Call → ℕ
  time (sent phone purpose now drawn) = now
  time (tried phone purpose code now) = now

  abbrev pub answer : PhoneCodes → Call → PhoneCodes
  answer t (sent phone purpose now drawn) = (issue_code mac secret phone purpose now drawn t).1
  answer t (tried phone purpose code now) = (verify_code mac secret phone purpose code now t).1

  abbrev pub answer_all : PhoneCodes → List Call → PhoneCodes
  answer_all t [] = t
  answer_all t (c ∷ calls) = answer_all (answer t c) calls

  abbrev pub InTurn : ℕ → List Call → Type 0
  InTurn last [] = Unit
  InTurn last (c ∷ calls) = (last ≤ time c) × InTurn (time c) calls

  sends-map :
      (phone : Text) (id n : ℕ) (o : Option ℕ) (rows : List PhoneCode)
      → sends phone (map (set_guess mac secret id n o) rows) ≡ sends phone rows
  unfolding sends
  sends-map phone id n o [] = refl
  sends-map phone id n o (r ∷ rows) = ground (arith, sends-map phone id n o rows)

  sends-verify_code :
      (phone own : Text) (purpose : CodePurpose) (code : Text) (now : ℕ) (t : PhoneCodes)
      → sends phone (verify_code mac secret own purpose code now t).1.rows ≡ sends phone t.rows
  unfolding verify_code guess
  sends-verify_code phone own purpose code now t =
      elim (newest_live mac secret own purpose now t)
        as (λ o.
          sends phone (check_guess mac secret own code now o t).1.rows ≡ sends phone t.rows) [
            | none ↦ refl
            | some r ↦
                elim (leb 3 r.attempts)
                  as (λ b.
                    sends phone (if b then (false, t) else guess mac secret own code now r t).1.rows
                    ≡ sends phone t.rows) [ true ↦ refl | false ↦ sends-map phone r.id _ _ t.rows ]
          ]

  module _ (phone : Text) (last now : ℕ) (t : PhoneCodes) (paced : IsPaced phone last t)
      (later : last ≤ now) where
    still-IsPaced :
        (t' : PhoneCodes) → sends phone t'.rows ≡ sends phone t.rows → IsPaced phone now t'
    still-IsPaced t' e = record {
      past = rw e (AllUpTo-later last now (sends phone t.rows) later paced.past);
      limited = rw e paced.limited;
    }

    still-IsPaced_with_now :
        (seq : ℕ) (row : PhoneCode)
        → row.created_at ≡ now
        → sent_last_hour t phone now < max_sends_per_hour
        → text_eq row.phone phone ≡ true
        → IsPaced phone now (record { rows = t.rows ++ row ∷ []; seq = seq })
    unfolding sends
    still-IsPaced_with_now seq row at_now room own =
        let past = AllUpTo-later last now (sends phone t.rows) later paced.past in
        let e = sends-append phone t.rows (row ∷ []) in
        record {
          past = rw e (rw own (rw at_now (AllUpTo-snoc now (sends phone t.rows) past)));
          limited = rw e (
              rw own (
                rw at_now (
                  limited_with_now now (sends phone t.rows) past paced.limited
                    (rw (sent_last_hour-recent phone now t.seq t.rows past) at room))));
        }

    sends-other :
        (row : PhoneCode)
        → text_eq row.phone phone ≡ false
        → sends phone (t.rows ++ row ∷ []) ≡ sends phone t.rows
    unfolding sends
    sends-other row other =
        rw (sends-append phone t.rows (row ∷ [])) (rw other (append-nil (sends phone t.rows)))

    step_sent :
        (own : Text) (purpose : CodePurpose) (drawn : ℕ)
        → IsPaced phone now (issue_code mac secret own purpose now drawn t).1
    unfolding issue_code
    step_sent own purpose drawn = elim (Bool-cases (ltb 0 (seconds_until_resend t own now))) [
      | inl e ↦ rw e (still-IsPaced t refl)
      | inr e ↦ elim (Bool-cases (leb 5 (sent_last_hour t own now))) [
        | inl f ↦ rw e (rw f (still-IsPaced t refl))
        | inr f ↦ rw e (rw f (stored own purpose drawn f (Bool-cases (text_eq own phone))))
      ]
    ]
      where
        stored :
            (own : Text) (purpose : CodePurpose) (drawn : ℕ)
            → leb 5 (sent_last_hour t own now) ≡ false
            → (text_eq own phone ≡ true) ⊎ (text_eq own phone ≡ false)
            → IsPaced phone now (record {
              rows = t.rows ++ new_code mac secret t.seq own purpose (six_digits drawn) now ∷ [];
              seq = suc t.seq;
            })
        stored own purpose drawn room (inl same) =
            still-IsPaced_with_now (suc t.seq)
              (new_code mac secret t.seq own purpose (six_digits drawn) now) refl
              (subst (λ (p : Text). sent_last_hour t p now < max_sends_per_hour)
                (eq_of_text_eq own phone same) (ground arith))
              same
        stored own purpose drawn room (inr other) =
            still-IsPaced _
              (sends-other (new_code mac secret t.seq own purpose (six_digits drawn) now) other)

  step :
      (phone : Text) (last : ℕ) (t : PhoneCodes) (c : Call)
      → IsPaced phone last t
      → last ≤ time c
      → IsPaced phone (time c) (answer t c)
  step phone last t (sent own purpose now drawn) paced later =
      step_sent phone last now t paced later own purpose drawn
  step phone last t (tried own purpose code now) paced later =
      still-IsPaced phone last now t paced later _ (sends-verify_code phone own purpose code now t)

  all_paced :
      (phone : Text) (last : ℕ) (t : PhoneCodes) (calls : List Call)
      → IsPaced phone last t
      → InTurn last calls
      → (at : ℕ)
      → recent send_window at (sends phone (answer_all t calls).rows) ≤ max_sends_per_hour
  all_paced phone last t [] paced order at = paced.limited at
  all_paced phone last t (c ∷ calls) paced order at =
      all_paced phone (time c) (answer t c) calls (step phone last t c paced order.0) order.1 at

  -- From an empty table, whatever codes are asked for and guessed, as long as the clock does not go back:
  -- no hour holds more than five codes sent to one phone.
  pub hourly_limit :
      (phone : Text) (calls : List Call) (seq at : ℕ)
      → InTurn 0 calls
      → recent send_window at
          (sends phone (answer_all (record { rows = []; seq = seq }) calls).rows)
        ≤ max_sends_per_hour
  hourly_limit phone calls seq at order =
      all_paced phone 0 (record { rows = []; seq = seq }) calls
        (record { past = unfold sends in tt; limited = λ a. unfold sends recent in omega arith })
        order at
