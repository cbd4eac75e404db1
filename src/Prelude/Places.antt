-- ===== src/Prelude/Places.antt =====
-- A number that a short list does not hold.
use Prim.Native.Nat.{ℕ, zero, suc, ◌+◌, ◌≤◌, ◌<◌}
use mathlib.Core.Path.{◌≡◌, refl}
use mathlib.Core.Bool.{Bool, true, false, not}
use mathlib.Core.Logic.{◌⊎◌, inl, inr}
use mathlib.Core.List.{List, [], ◌∷◌}
use native.Mathlib.Omega.{arith}
use twirl.Prelude.Tests.{◌==◌, Bool-cases}
use twirl.Prelude.Lists.{length, where_, any}

abbrev pub holds_number : ℕ → List ℕ → Bool
holds_number a xs = any (λ x. x == a) xs

abbrev drop_all : ℕ → List ℕ → List ℕ
drop_all a xs = where_ (λ x. not (x == a)) xs

length-drop_all_le : (a : ℕ) (xs : List ℕ) → length (drop_all a xs) ≤ length xs
length-drop_all_le a [] = omega arith
length-drop_all_le a (x ∷ xs) = ground (arith, length-drop_all_le a xs)

length-drop_all :
    (a : ℕ) (xs : List ℕ) → holds_number a xs ≡ true → length (drop_all a xs) < length xs
length-drop_all a [] h = cc
length-drop_all a (x ∷ xs) h = ground (arith, length-drop_all a xs, length-drop_all_le a xs)

holds_number-drop_all :
    (a b : ℕ) (xs : List ℕ)
    → a < b
    → holds_number b (drop_all a xs) ≡ false
    → holds_number b xs ≡ false
holds_number-drop_all a b [] l h = refl
holds_number-drop_all a b (x ∷ xs) l h = ground (arith, holds_number-drop_all a b xs)

-- Of a number and the next ones, as many as the list is long, one is not in the list.
pub free_number :
    (k a : ℕ) (xs : List ℕ)
    → length xs ≤ k
    → (b : ℕ) × (a ≤ b) × (b ≤ a + k) × (holds_number b xs ≡ false)
free_number zero a [] h = (a, omega arith, omega arith, refl)
free_number zero a (x ∷ xs) h = absurd (omega arith)
free_number (suc k) a xs h = elim (Bool-cases (holds_number a xs)) [
  | inr e ↦ (a, omega arith, omega arith, e)
  | inl e ↦
      let fewer = length-drop_all a xs e in
      let (b, low, high, out) = free_number k (a + 1) (drop_all a xs) (omega arith) in
      (b, omega arith, omega arith, holds_number-drop_all a b xs (omega arith) out)
]

pub eq_or_more : (a d : ℕ) → a ≤ d → (a ≡ d) ⊎ (a + 1 ≤ d)
eq_or_more a d h = grind arith
