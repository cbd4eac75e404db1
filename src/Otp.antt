-- ===== src/Otp.antt =====
-- otp.py and models/phone_codes.py: the SMS codes. Times count microseconds.
pub mod Issue
pub mod Sends
pub mod Limit
pub mod Verify
pub mod Guesses
use twirl.Prelude.{
  ℕ, zero, suc, ◌+◌, ◌-◌, ◌*◌, ◌/◌, ◌%◌, Bool, true, false, not, ◌&&◌, ◌||◌, Option, none, some,
  List, [], ◌∷◌, ◌++◌, map, Text, codes, text_eq, strip, show, length, first, where_, sort_by, ltb,
  leb, ◌==◌, if◌then◌else◌,
}
use twirl.Exec.{Result, ok, err}

pub data CodePurpose : Type 0 where
  signup login : CodePurpose

abbrev pub same_purpose : CodePurpose → CodePurpose → Bool
same_purpose signup signup = true
same_purpose login login = true
same_purpose _ _ = false

pub record PhoneCode : Type 0 where
  pub id : ℕ
  pub phone : Text
  pub purpose : CodePurpose
  pub code_hash : Text
  pub expires_at : ℕ
  pub attempts : ℕ
  pub consumed_at : Option ℕ
  pub created_at : ℕ

-- The table, with the next value of its sequence.
pub record PhoneCodes : Type 0 where
  pub rows : List PhoneCode
  pub seq : ℕ

abbrev pub second : ℕ
second = 1000000

abbrev pub code_ttl : ℕ
code_ttl = 300000000

abbrev pub max_guesses : ℕ
max_guesses = 3

abbrev pub resend_after : ℕ
resend_after = 30000000

abbrev pub max_sends_per_hour : ℕ
max_sends_per_hour = 5

abbrev pub send_window : ℕ
send_window = 3600000000

pub data OtpError : Type 0 where
  too_soon : (seconds_left : ℕ) → OtpError
  too_many : OtpError

-- ORDER BY created_at DESC, id DESC
abbrev pub newest_first : PhoneCode → PhoneCode → Bool
newest_first a b = ltb b.created_at a.created_at || (a.created_at == b.created_at && leb b.id a.id)

-- `_latest`
unfoldable pub latest : Text → PhoneCodes → Option PhoneCode
latest phone t =
    first (sort_by newest_first (where_ (λ (r : PhoneCode). text_eq r.phone phone) t.rows))

-- `round` of microseconds to seconds: a half goes to the even neighbour.
abbrev pub round_seconds : ℕ → ℕ
round_seconds us =
    let whole = us / 1000000 in
    let part = us % 1000000 in
    if ltb 500000 part || (part == 500000 && whole % 2 == 1) then suc whole else whole

-- max(0, int(round(remaining))): a wait that is over counts as none.
abbrev pub wait_after : Option PhoneCode → ℕ → ℕ
wait_after none now = 0
wait_after (some r) now = round_seconds (r.created_at + resend_after - now)

unfoldable pub seconds_until_resend : PhoneCodes → Text → ℕ → ℕ
seconds_until_resend t phone now = wait_after (latest phone t) now

-- created_at > now - timedelta(hours=1)
unfoldable pub sent_last_hour : PhoneCodes → Text → ℕ → ℕ
sent_last_hour t phone now = length (
    where_ (λ (r : PhoneCode). text_eq r.phone phone && ltb now (r.created_at + send_window))
      t.rows)

-- f"{n:06d}" of a number below 10**6
abbrev pub six_digits : ℕ → Text
six_digits n =
    (n / 100000 % 10 + 48)
    ∷ (n / 10000 % 10 + 48)
    ∷ (n / 1000 % 10 + 48)
    ∷ (n / 100 % 10 + 48)
    ∷ (n / 10 % 10 + 48)
    ∷ (n % 10 + 48)
    ∷ []

-- `mac key message` stands for the HMAC-SHA256 of the message, in hexadecimal.
module _ (mac : Text → Text → Text) (secret : Text) where
  -- `_hash`
  abbrev pub hash : Text → Text → Text
  hash phone code = mac secret (phone ++ codes ":" ++ code)

  abbrev pub new_code : ℕ → Text → CodePurpose → Text → ℕ → PhoneCode
  new_code id phone purpose code now = record {
    id = id;
    phone = phone;
    purpose = purpose;
    code_hash = hash phone code;
    expires_at = now + code_ttl;
    attempts = 0;
    consumed_at = none;
    created_at = now;
  }

  -- `drawn` is what secrets.randbelow(10**6) returned.
  unfoldable pub issue_code :
      Text → CodePurpose → (now drawn : ℕ) → PhoneCodes → Result OtpError Text × PhoneCodes
  issue_code phone purpose now drawn t =
      let wait = seconds_until_resend t phone now in
      if ltb 0 wait
      then (err (too_soon wait), t)
      else if leb max_sends_per_hour (sent_last_hour t phone now)
      then (err too_many, t)
      else (
        ok (six_digits drawn),
        record {
          rows = t.rows ++ new_code t.seq phone purpose (six_digits drawn) now ∷ [];
          seq = suc t.seq;
        },
      )

  -- consumed_at IS NULL AND expires_at > now
  unfoldable pub is_live : Text → CodePurpose → ℕ → PhoneCode → Bool
  is_live phone purpose now r =
      text_eq r.phone phone
      && same_purpose r.purpose purpose
      && elim r.consumed_at [ none ↦ true | some _ ↦ false ]
      && ltb now r.expires_at

  unfoldable pub newest_live : Text → CodePurpose → ℕ → PhoneCodes → Option PhoneCode
  newest_live phone purpose now t =
      first (sort_by newest_first (where_ (is_live phone purpose now) t.rows))

  -- UPDATE phone_codes SET attempts = ..., consumed_at = ... WHERE id = ...
  abbrev pub set_guess : ℕ → ℕ → Option ℕ → PhoneCode → PhoneCode
  set_guess id attempts consumed_at c =
      if c.id == id then record c { attempts = attempts; consumed_at = consumed_at } else c

  -- The guess on a row that still takes one.
  unfoldable pub guess : Text → Text → ℕ → PhoneCode → PhoneCodes → Bool × PhoneCodes
  guess phone code now r t =
      let right = text_eq r.code_hash (hash phone (strip code)) in
      (
        right,
        record t {
          rows =
              map (set_guess r.id (r.attempts + 1) (if right then some now else r.consumed_at))
                t.rows;
        },
      )

  abbrev pub check_guess : Text → Text → ℕ → Option PhoneCode → PhoneCodes → Bool × PhoneCodes
  check_guess phone code now none t = (false, t)
  check_guess phone code now (some r) t =
      if leb max_guesses r.attempts then (false, t) else guess phone code now r t

  unfoldable pub verify_code :
      Text → CodePurpose → Text → (now : ℕ) → PhoneCodes → Bool × PhoneCodes
  verify_code phone purpose code now t =
      check_guess phone code now (newest_live phone purpose now t) t
