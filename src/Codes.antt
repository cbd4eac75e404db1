-- ===== src/Codes.antt =====
-- codes.py: short random codes.
pub mod Fresh
use twirl.Prelude.{
  ℕ, zero, suc, ◌+◌, ◌%◌, Bool, true, false, ◌&&◌, List, [], ◌∷◌, Text, codes, text_eq, get_or, any,
  ◌==◌, if◌then◌else◌,
}
use twirl.Exec.{Exec, pure, raise, gets, ◌>>=◌}
use twirl.Errors.{Error, runtime_error}
use twirl.Host.{Host}
use twirl.Model.{Db, Item}
use twirl.Session.{ref_taken}

abbrev pub code_alphabet : Text
code_alphabet = codes "ACDEFHJKLMNPRTUVWXY3479"

-- secrets.choice(code_alphabet): the alphabet has 23 characters
unfoldable pub choice : Host → ℕ → ℕ
choice host n = get_or code_alphabet (host.random n % 23) 0

unfoldable pub code_from : Host → ℕ → ℕ → Text
unfolding choice
code_from host n zero = []
code_from host n (suc length) = choice host n ∷ code_from host (suc n) length

unfoldable pub random_code : Host → ℕ → Exec Db Error Text
unfolding pure code_from
random_code host length db =
    pure (code_from host db.drawn length) (record db { drawn = db.drawn + length })

abbrev pub item_code_taken : ℕ → Text → List Item → Bool
item_code_taken shop_id code items = any (λ i. i.shop_id == shop_id && text_eq i.code code) items

-- the loops, over the rounds that they have left
unfoldable pub try_item_codes : Host → ℕ → ℕ → Exec Db Error Text
try_item_codes host shop_id zero = raise runtime_error
try_item_codes host shop_id (suc rounds) = do
  let again = try_item_codes host shop_id rounds
  code ← random_code host 4
  taken ← gets (λ db. item_code_taken shop_id code db.items)
  if taken then again else pure code

unfoldable pub new_item_code : Host → ℕ → Exec Db Error Text
unfolding try_item_codes
new_item_code host shop_id = try_item_codes host shop_id 20

unfoldable pub try_refs : Host → ℕ → Exec Db Error Text
try_refs host zero = raise runtime_error
try_refs host (suc rounds) = do
  let again = try_refs host rounds
  ref ← random_code host 6
  taken ← gets (λ db. ref_taken ref db.bookings)
  if taken then again else pure ref

unfoldable pub new_booking_ref : Host → Exec Db Error Text
unfolding try_refs
new_booking_ref host = try_refs host 20
