-- ===== src/Sizes.antt =====
-- catalog.py: `normalize_size` and `size_sort_key`
use twirl.Prelude.{
  ℕ, suc, ◌+◌, ◌*◌, ◌^◌, Bool, true, false, not, ◌&&◌, ◌||◌, Option, none, some, List, [], ◌∷◌, map,
  Text, codes, text_eq, text_leb, strip, is_empty, length, all, any, sort_by, ltb, ◌==◌,
  if◌then◌else◌,
}
use twirl.Exec.{Result, ok, err, and_then}
use twirl.Errors.{Error, value_error}
use twirl.Host.{Host, upper_text}

unfoldable pub normalize_size : Host → Text → Result Error Text
normalize_size host raw =
    let size = upper_text host (strip raw) in
    if is_empty size || ltb 8 (length size) then err value_error else ok size

abbrev pub letter_sizes : List Text
letter_sizes =
    codes "XXS"
    ∷ codes "XS"
    ∷ codes "S"
    ∷ codes "M"
    ∷ codes "L"
    ∷ codes "XL"
    ∷ codes "XXL"
    ∷ codes "XXXL"
    ∷ []

-- A decimal number: `mantissa` divided by ten to the power of `scale`. A size has at most eight
-- characters, and `float` tells all numbers of that length apart.
pub record Decimal : Type 0 where
  pub mantissa : ℕ
  pub scale : ℕ

abbrev pub decimal_ltb : Decimal → Decimal → Bool
decimal_ltb a b = ltb (a.mantissa * 10 ^ b.scale) (b.mantissa * 10 ^ a.scale)

-- the tuple that `size_sort_key` returns
pub record SortKey : Type 0 where
  pub group : ℕ
  pub number : Decimal
  pub size : Text

-- `size.replace(".", "", 1)`
unfoldable pub without_point : Text → Text
without_point [] = []
without_point (c ∷ s) = let rest = without_point s in if c == 46 then s else c ∷ rest

-- `str.isdigit`
abbrev pub are_digits : Host → Text → Bool
are_digits host s = not (is_empty s) && all host.is_digit s

-- `float(s)` of digits with at most one point, from the digits read so far and whether a point was
abbrev add_digit : Bool → Decimal → ℕ → Decimal
add_digit seen d n = record {
  mantissa = d.mantissa * 10 + n;
  scale = if seen then suc d.scale else d.scale;
}

abbrev digit_of : Host → ℕ → Result Error ℕ
digit_of host c = elim (host.decimal_of c) [ none ↦ err value_error | some n ↦ ok n ]

unfoldable pub float_from : Host → Bool → Decimal → Text → Result Error Decimal
float_from host seen d [] = ok d
float_from host seen d (c ∷ s) =
    let past_point = float_from host true d s in
    let digit = and_then (digit_of host c) (λ n. float_from host seen (add_digit seen d n) s) in
    if c == 46 then past_point else digit

-- `LETTER_SIZES.index(size)`, or none
unfoldable pub place_of : Text → List Text → Option ℕ
place_of s [] = none
place_of s (x ∷ xs) =
    let rest = place_of s xs in
    if text_eq x s then some 0 else elim rest [ none ↦ none | some n ↦ some (suc n) ]

abbrev pub whole : ℕ → Decimal
whole n = record { mantissa = n; scale = 0 }

abbrev letter_key : Text → Option ℕ → SortKey
letter_key size none = record { group = 2; number = whole 0; size = size }
letter_key size (some n) = record { group = 1; number = whole n; size = size }

unfoldable pub size_sort_key : Host → Text → Result Error SortKey
unfolding without_point float_from place_of
size_sort_key host size =
    let number =
      and_then (float_from host false (whole 0) size)
        λ d. ok (record { group = 0; number = d; size = size }) in
    if are_digits host (without_point size)
    then number
    else ok (letter_key size (place_of size letter_sizes))

-- `a <= b` of two tuples
unfoldable pub key_leb : SortKey → SortKey → Bool
key_leb a b =
    ltb a.group b.group
    || (a.group == b.group
        && (decimal_ltb a.number b.number
            || (not (decimal_ltb b.number a.number) && text_leb a.size b.size)))

-- the elements of a `set`, each once
unfoldable pub distinct : List Text → List Text
distinct [] = []
distinct (s ∷ ss) = let rest = distinct ss in if any (text_eq s) ss then rest else s ∷ rest

unfoldable pub sort_keys : Host → List Text → Result Error (List SortKey)
sort_keys host [] = ok []
sort_keys host (s ∷ ss) =
    and_then (size_sort_key host s) λ k. and_then (sort_keys host ss) λ ks. ok (k ∷ ks)

-- `sorted(sizes, key=size_sort_key)`
unfoldable pub sorted_sizes : Host → List Text → Result Error (List Text)
unfolding sort_keys
sorted_sizes host sizes =
    and_then (sort_keys host sizes) λ ks. ok (map (λ k. k.size) (sort_by key_leb ks))
