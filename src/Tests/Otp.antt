-- ===== src/Tests/Otp.antt =====
-- The SMS codes, with a hash that writes the key before the message.
use twirl.Prelude.{
  false, inl, inr, sym, ◌∙◌, ◌≤◌, ◌≡◌, refl, arith, List, [], ◌∷◌, ◌++◌, Text, codes, strip, lstrip,
  is_space, sort_by, text_eq,
}
use twirl.Exec.{err}
use twirl.RateLimit.Recent.{recent}
use twirl.Otp.{
  PhoneCode, PhoneCodes, login, too_soon, send_window, latest, seconds_until_resend, new_code,
  issue_code, is_live, newest_live, guess, verify_code,
}
use twirl.Otp.Limit.{Call, sent, tried, answer_all, hourly_limit}
use twirl.Otp.Sends.{sends}
use twirl.Otp.Verify.{IsVerified, verify_code-IsVerified}
use twirl.Otp.Guesses.{AreKeyed, guesses_limit}

abbrev mac : Text → Text → Text
mac key message = key ++ message

abbrev phone : Text
phone = codes "+383"

abbrev sent_code : PhoneCode
sent_code = new_code mac (codes "k") 1 phone login (codes "000123") 1000

abbrev sent_codes : PhoneCodes
sent_codes = record { rows = sent_code ∷ []; seq = 2 }

-- Earlier than that the wait is told.
too_early : (issue_code mac (codes "k") phone login 10001000 456 sent_codes).0 ≡ err (too_soon 20)
unfolding issue_code seconds_until_resend latest sort_by text_eq
too_early = refl

verify_code-IsVerified_example :
    (r : PhoneCode) × IsVerified mac
      (codes "k")
      phone
      login
      (codes " 000123")
      2000
      sent_codes
      (verify_code mac (codes "k") phone login (codes " 000123") 2000 sent_codes).1
      r
unfolding verify_code newest_live is_live guess sort_by text_eq strip lstrip is_space
verify_code-IsVerified_example =
    verify_code-IsVerified mac (codes "k") phone login (codes " 000123") 2000 sent_codes refl

abbrev calls : List (Call mac (codes "k"))
calls = sent phone login 1 7 ∷ tried phone login (codes "1") 2 ∷ sent phone login 40000000 8 ∷ []

hourly_limit_example :
    recent send_window 50000000
      (sends phone (answer_all mac (codes "k") (record { rows = []; seq = 1 }) calls).rows)
    ≤ 5
hourly_limit_example =
    hourly_limit mac (codes "k") phone calls 1 50000000
      (omega arith, (omega arith, (omega arith, tt)))

-- three wrong guesses, and the right one
abbrev wrong : Call mac (codes "k")
wrong = tried phone login (codes "1") 2000

sent_keys : AreKeyed sent_codes
sent_keys = record {
  below = λ r i. elim i [ inl e ↦ rw e (omega arith) | inr j ↦ elim j [ ] ];
  unique = λ r s i j e. elim i [
    | inl a ↦ elim j [ inl b ↦ a ∙ sym b | inr k ↦ elim k [ ] ]
    | inr k ↦ elim k [ ]
  ];
}

guesses_limit_example :
    (verify_code mac
      (codes "k")
      phone
      login
      (codes "000123")
      2000
      (answer_all mac (codes "k") sent_codes (wrong ∷ wrong ∷ wrong ∷ []))).0
    ≡ false
unfolding verify_code newest_live is_live guess sort_by text_eq strip lstrip is_space
guesses_limit_example =
    guesses_limit mac (codes "k") sent_codes (wrong ∷ wrong ∷ wrong ∷ []) sent_code sent_keys
      (inl refl) (omega arith) phone login (codes "000123") 2000 refl
