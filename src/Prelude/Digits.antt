-- ===== src/Prelude/Digits.antt =====
-- `str(n)` read back.
use Prim.Native.Nat.{ℕ, zero, suc, ◌+◌, ◌-◌, ◌*◌, ◌/◌, ◌%◌, ◌<◌}
use mathlib.Core.Path.{◌≡◌, refl}
use mathlib.Core.Logic.{inl, inr}
use mathlib.Core.List.{[], ◌∷◌, ◌++◌}
use native.Mathlib.Omega.{arith}
use twirl.Prelude.Tests.{ltb, Bool-cases}
use twirl.Prelude.Str.{Text, decimal, show}

-- the number that digits write, after those that were read
abbrev pub number_from : ℕ → Text → ℕ
number_from n [] = n
number_from n (c ∷ s) = number_from (n * 10 + (c - 48)) s

number_from-append :
    (n c : ℕ) (s : Text) → number_from n (s ++ c ∷ []) ≡ number_from n s * 10 + (c - 48)
number_from-append n c [] = refl
number_from-append n c (d ∷ s) = number_from-append (n * 10 + (d - 48)) c s

number_from-decimal : (rounds n : ℕ) → n < rounds → number_from 0 (decimal rounds n) ≡ n
unfolding decimal
number_from-decimal zero n h = absurd (omega arith)
number_from-decimal (suc rounds) n h = elim (Bool-cases (ltb n 10)) [
  | inl e ↦ rw e (omega arith)
  | inr e ↦
      rw
        (
          e,
          number_from-append 0 (n % 10 + 48) (decimal rounds (n / 10)),
          number_from-decimal rounds (n / 10) (ground (arith, e, h)),
        )
        (omega arith)
]

-- The digits of a number write that number.
pub number_from-show : (n : ℕ) → number_from 0 (show n) ≡ n
unfolding show
number_from-show n = number_from-decimal (suc n) n (omega arith)
