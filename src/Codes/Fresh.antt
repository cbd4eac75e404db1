-- ===== src/Codes/Fresh.antt =====
-- codes.py: the codes that it hands out.
use twirl.Prelude.{
  ℕ, zero, suc, ◌+◌, ◌%◌, ◌<◌, ◌≡◌, refl, inl, inr, false, [], ◌∷◌, Text, arith, length, In, get_or,
}
use twirl.Exec.{pure, ◌>>=◌}
use twirl.Exec.Holds.{Ends, Ends-if}
use twirl.Errors.{Error, runtime_error}
use twirl.Host.{Host}
use twirl.Model.{Db}
use twirl.Session.{ref_taken}
use twirl.Codes.{
  code_alphabet, choice, code_from, random_code, item_code_taken, try_item_codes, try_refs,
  new_item_code, new_booking_ref,
}

-- A text of `n` characters of the alphabet.
abbrev pub IsCode : ℕ → Text → Type 0
IsCode n code = (length code ≡ n) × ((c : ℕ) → In c code → In c code_alphabet)

get_or-In : (xs : Text) (n d : ℕ) → n < length xs → In (get_or xs n d) xs
get_or-In [] n d h = absurd (omega arith)
get_or-In (x ∷ xs) zero d h = inl refl
get_or-In (x ∷ xs) (suc n) d h = inr (get_or-In xs n d (omega arith))

choice-In : (host : Host) (n : ℕ) → In (choice host n) code_alphabet
unfolding choice
choice-In host n = get_or-In code_alphabet (host.random n % 23) 0 (omega arith)

code_from-In : (host : Host) (n k c : ℕ) → In c (code_from host n k) → In c code_alphabet
unfolding code_from
code_from-In host n zero c h = elim h [ ]
code_from-In host n (suc k) c (inl e) = rw e (choice-In host n)
code_from-In host n (suc k) c (inr h) = code_from-In host (suc n) k c h

length-code_from : (host : Host) (n k : ℕ) → length (code_from host n k) ≡ k
unfolding code_from
length-code_from host n zero = refl
length-code_from host n (suc k) = omega (arith, length-code_from host (suc n) k)

code_from-IsCode : (host : Host) (n k : ℕ) → IsCode k (code_from host n k)
code_from-IsCode host n k = (length-code_from host n k, code_from-In host n k)

-- What the search for a code leaves: nothing but the drawn numbers has changed.
abbrev pub Drew : Db → Db → Type 0
Drew db d = d ≡ record db { drawn = d.drawn }

abbrev pub IsFreshRef : Db → Text → Db → Type 0
IsFreshRef db ref d = Drew db d × (ref_taken ref db.bookings ≡ false) × IsCode 6 ref

abbrev pub GaveUp : Db → Error → Db → Type 0
GaveUp db e d = Drew db d × (e ≡ runtime_error)

try_refs-fresh :
    (host : Host) (n : ℕ) (db : Db) → Ends (IsFreshRef db) (GaveUp db) (try_refs host n db)
unfolding try_refs random_code ◌>>=◌
try_refs-fresh host zero db = (refl, refl)
try_refs-fresh host (suc n) db =
    let d = record db { drawn = db.drawn + 6 } in
    let ref = code_from host db.drawn 6 in
    Ends-if (IsFreshRef db) (GaveUp db) (ref_taken ref db.bookings) (try_refs host n) (pure ref) d
      (λ _. try_refs-fresh host n d)
      (λ free. unfold pure in (refl, free, code_from-IsCode host db.drawn 6))

-- `new_booking_ref` returns six characters of the alphabet that are no booking's reference, or raises
-- RuntimeError; either way nothing has changed but the numbers drawn.
pub new_booking_ref-fresh :
    (host : Host) (db : Db) → Ends (IsFreshRef db) (GaveUp db) (new_booking_ref host db)
unfolding new_booking_ref
new_booking_ref-fresh host db = try_refs-fresh host 20 db

abbrev pub IsFreshCode : ℕ → Db → Text → Db → Type 0
IsFreshCode shop_id db code d =
    Drew db d × (item_code_taken shop_id code db.items ≡ false) × IsCode 4 code

try_item_codes-fresh :
    (host : Host) (shop_id n : ℕ) (db : Db)
    → Ends (IsFreshCode shop_id db) (GaveUp db) (try_item_codes host shop_id n db)
unfolding try_item_codes random_code ◌>>=◌
try_item_codes-fresh host shop_id zero db = (refl, refl)
try_item_codes-fresh host shop_id (suc n) db =
    let d = record db { drawn = db.drawn + 4 } in
    let code = code_from host db.drawn 4 in
    Ends-if (IsFreshCode shop_id db) (GaveUp db) (item_code_taken shop_id code db.items)
      (try_item_codes host shop_id n) (pure code) d (λ _. try_item_codes-fresh host shop_id n d)
      (λ free. unfold pure in (refl, free, code_from-IsCode host db.drawn 4))

-- `new_item_code` returns four characters of the alphabet that are no item's code in the shop, or raises
-- RuntimeError; either way nothing has changed but the numbers drawn.
pub new_item_code-fresh :
    (host : Host) (shop_id : ℕ) (db : Db)
    → Ends (IsFreshCode shop_id db) (GaveUp db) (new_item_code host shop_id db)
unfolding new_item_code
new_item_code-fresh host shop_id db = try_item_codes-fresh host shop_id 20 db
