-- ===== src/Exec/Holds.antt =====
-- What an action ensures: from a state with `P`, a return with `Q` or a raise with `R`.
use twirl.Prelude.{Bool, true, false, ◌≡◌, refl, if◌then◌else◌}
use twirl.Exec.{Result, ok, err, Exec, pure, raise, lift, continue, ◌>>=◌}

module _ {ℓ} {S E A : Type ℓ} where
  abbrev pub Ends : (A → S → Type ℓ) → (E → S → Type ℓ) → Result E A × S → Type ℓ
  Ends Q R (ok a, s) = Q a s
  Ends Q R (err e, s) = R e s

  pub record Holds (P : S → Type ℓ) (m : Exec S E A) (Q : A → S → Type ℓ) (R : E → S → Type ℓ)
      : Type ℓ where
    pub run : (s : S) → P s → Ends Q R (m s)

  pub Holds-pure :
      (P : S → Type ℓ) (a : A) (Q : A → S → Type ℓ) (R : E → S → Type ℓ)
      → ((s : S) → P s → Q a s)
      → Holds P (pure a) Q R
  unfolding pure
  Holds-pure P a Q R h = record { run = h }

  pub Holds-raise :
      (P : S → Type ℓ) (e : E) (Q : A → S → Type ℓ) (R : E → S → Type ℓ)
      → ((s : S) → P s → R e s)
      → Holds P (raise e) Q R
  unfolding raise
  Holds-raise P e Q R h = record { run = h }

  pub Ends-weaken :
      (Q Q' : A → S → Type ℓ) (R R' : E → S → Type ℓ) (x : Result E A × S)
      → ((a : A) (s : S) → Q a s → Q' a s)
      → ((e : E) (s : S) → R e s → R' e s)
      → Ends Q R x
      → Ends Q' R' x
  Ends-weaken Q Q' R R' (ok a, s) hq hr h = hq a s h
  Ends-weaken Q Q' R R' (err e, s) hq hr h = hr e s h

  pub Ends-lift :
      (r : Result E A) (s : S)
      → Ends (λ a s'. (r ≡ ok a) × (s' ≡ s)) (λ e s'. (r ≡ err e) × (s' ≡ s)) (lift r s)
  unfolding lift
  Ends-lift (ok a) s = (refl, refl)
  Ends-lift (err e) s = (refl, refl)

  pub Ends-if :
      (Q : A → S → Type ℓ) (R : E → S → Type ℓ) (b : Bool) (m n : Exec S E A) (s : S)
      → (b ≡ true → Ends Q R (m s))
      → (b ≡ false → Ends Q R (n s))
      → Ends Q R ((if b then m else n) s)
  Ends-if Q R true m n s hm hn = hm refl
  Ends-if Q R false m n s hm hn = hn refl

module _ {ℓ} {S E A B : Type ℓ} where
  continue-Ends :
      (Q : A → S → Type ℓ) (R : E → S → Type ℓ) (f : A → Exec S E B) (Q' : B → S → Type ℓ)
      (r : Result E A) (s : S)
      → ((a : A) → Holds (Q a) (f a) Q' R)
      → Ends Q R (r, s)
      → Ends Q' R (continue r f s)
  continue-Ends Q R f Q' (ok a) s hf h = (hf a).run s h
  continue-Ends Q R f Q' (err e) s hf h = h

  pub Holds-bind :
      (P : S → Type ℓ) (m : Exec S E A) (Q : A → S → Type ℓ) (f : A → Exec S E B)
      (Q' : B → S → Type ℓ) (R : E → S → Type ℓ)
      → Holds P m Q R
      → ((a : A) → Holds (Q a) (f a) Q' R)
      → Holds P (m >>= f) Q' R
  unfolding ◌>>=◌
  Holds-bind P m Q f Q' R hm hf = record {
    run = λ s p. let (r, s') = m s in continue-Ends Q R f Q' r s' hf (hm.run s p);
  }

  continue-Ends_at :
      (Q : A → S → Type ℓ) (T R : E → S → Type ℓ) (f : A → Exec S E B) (Q' : B → S → Type ℓ)
      (r : Result E A) (s : S)
      → ((e : E) (s : S) → T e s → R e s)
      → ((a : A) (s : S) → Q a s → Ends Q' R (f a s))
      → Ends Q T (r, s)
      → Ends Q' R (continue r f s)
  continue-Ends_at Q T R f Q' (ok a) s ht hf h = hf a s h
  continue-Ends_at Q T R f Q' (err e) s ht hf h = ht e s h

  -- The steps of a run from one state.
  pub Ends-bind :
      (Q : A → S → Type ℓ) (T R : E → S → Type ℓ) (m : Exec S E A) (f : A → Exec S E B)
      (Q' : B → S → Type ℓ) (s : S)
      → ((e : E) (s : S) → T e s → R e s)
      → Ends Q T (m s)
      → ((a : A) (s : S) → Q a s → Ends Q' R (f a s))
      → Ends Q' R ((m >>= f) s)
  unfolding ◌>>=◌
  Ends-bind Q T R m f Q' s ht h hf = let (r, s') = m s in continue-Ends_at Q T R f Q' r s' ht hf h
