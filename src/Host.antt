-- ===== src/Host.antt =====
-- What the program calls and does not implement, as a value that the definitions take: the phone
-- number library, the strings of a date, and the random numbers of `secrets`.
use twirl.Prelude.{[], ◌∷◌, ◌++◌, ℕ, Option, none, some, Text, strip, if◌then◌else◌}
use twirl.Prelude.{Bool}
use twirl.Exec.{Result, ok, err}
use twirl.Errors.{Error, invalid_phone}

pub record Host : Type 0 where
  -- phonenumbers.parse(text, "XK"), with a number standing for the parsed object
  pub parse_number : Text → Option ℕ
  pub is_valid_number : ℕ → Bool
  -- phonenumbers.format_number(parsed, E164)
  pub format_e164 : ℕ → Text
  -- date.strftime("%d.%m.%Y"), of an ordinal
  pub strftime : ℕ → Text
  -- the `n`-th number that `secrets` has drawn
  pub random : ℕ → ℕ
  -- the text that `str.upper` puts for a character
  pub upper : ℕ → Text
  -- unicodedata.normalize("NFKD", text)
  pub nfkd : Text → Text
  -- `str.isdigit` of a character, and the digit that `float` reads it as
  pub is_digit : ℕ → Bool
  pub decimal_of : ℕ → Option ℕ
  -- `a <= b` of ORDER BY, in the collation of the database
  pub collate : Text → Text → Bool

-- `str.upper`
unfoldable pub upper_text : Host → Text → Text
upper_text host [] = []
upper_text host (c ∷ s) = host.upper c ++ upper_text host s

-- phones.py: normalize_phone
unfoldable pub normalize_phone : Host → Text → Result Error Text
normalize_phone host raw = elim (host.parse_number (strip raw)) [
  | none ↦ err invalid_phone
  | some parsed ↦
      if host.is_valid_number parsed then ok (host.format_e164 parsed) else err invalid_phone
]
