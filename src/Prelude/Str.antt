-- ===== src/Prelude/Str.antt =====
-- Python's `str` as a list of code points, with the methods that the program calls.
use Prim.Native.Nat.{zero, suc, ◌+◌, ◌/◌, ◌%◌, ℕ}
use Prim.Native.Char.{code}
use Prim.Native.String.{String}
use mathlib.Core.Path.{◌≡◌, refl}
use mathlib.Core.Bool.{Bool, true, false, ◌&&◌, ◌||◌}
use mathlib.Core.List.{List, [], ◌∷◌, ◌++◌, reverse}
use native.Mathlib.Omega.{arith}
use twirl.Prelude.Tests.{ltb, leb, ◌==◌, if◌then◌else◌}

abbrev pub Text : Type 0
Text = List ℕ

abbrev pub codes : String → Text
codes String.[] = []
codes (String.◌∷◌ c s) = code c ∷ codes s

-- `a == b`
unfoldable pub text_eq : Text → Text → Bool
text_eq [] [] = true
text_eq (x ∷ xs) (y ∷ ys) = x == y && text_eq xs ys
text_eq _ _ = false

pub text_eq_refl : (s : Text) → text_eq s s ≡ true
unfolding text_eq
text_eq_refl [] = refl
text_eq_refl (x ∷ xs) = ground (arith, text_eq_refl xs)

pub eq_of_text_eq : (s t : Text) → text_eq s t ≡ true → s ≡ t
unfolding text_eq
eq_of_text_eq [] [] h = refl
eq_of_text_eq (x ∷ xs) (y ∷ ys) h = ground (arith, eq_of_text_eq xs ys)
eq_of_text_eq _ _ h = cc

-- `not s`
abbrev pub is_empty : Text → Bool
is_empty [] = true
is_empty (x ∷ xs) = false

-- `a <= b`
unfoldable pub text_leb : Text → Text → Bool
text_leb [] t = true
text_leb (x ∷ xs) [] = false
text_leb (x ∷ xs) (y ∷ ys) = ltb x y || (x == y && text_leb xs ys)

-- The characters of `str.isspace`, which `str.strip` takes off both ends.
unfoldable pub is_space : ℕ → Bool
is_space c =
    (leb 9 c && leb c 13)
    || (leb 28 c && leb c 32)
    || c == 133
    || c == 160
    || c == 5760
    || (leb 8192 c && leb c 8202)
    || c == 8232
    || c == 8233
    || c == 8239
    || c == 8287
    || c == 12288

unfoldable pub lstrip : Text → Text
lstrip [] = []
lstrip (c ∷ s) = let rest = lstrip s in if is_space c then rest else c ∷ s

unfoldable pub strip : Text → Text
unfolding lstrip is_space
strip s = reverse (lstrip (reverse (lstrip s)))

-- the words of `str.split()`: the characters read of a word, in reverse, and the rest
words_from : Text → Text → List Text
words_from word [] = if is_empty word then [] else reverse word ∷ []
words_from word (c ∷ s) =
    let inside = words_from (c ∷ word) s in
    let outside = words_from [] s in
    if is_space c then (if is_empty word then outside else reverse word ∷ outside) else inside

unfoldable pub words : Text → List Text
unfolding words_from is_space
words s = words_from [] s

-- sep.join(texts)
unfoldable pub join : Text → List Text → Text
join sep [] = []
join sep (t ∷ []) = t
join sep (t ∷ u ∷ ts) = t ++ sep ++ join sep (u ∷ ts)

-- `str(n)`: the rounds are more than the digits, since each one divides by ten.
unfoldable pub decimal : ℕ → ℕ → Text
decimal zero n = []
decimal (suc rounds) n =
    let front = decimal rounds (n / 10) in
    if ltb n 10 then (n + 48) ∷ [] else front ++ (n % 10 + 48) ∷ []

unfoldable pub show : ℕ → Text
unfolding decimal
show n = decimal (suc n) n
