-- ===== src/Exec/Keeps.antt =====
-- Invariants of actions: one rule for each way to build an action.
use twirl.Prelude.{Bool, true, false, if◌then◌else◌}
use twirl.Exec.{
  Result, ok, err, Exec, pure, raise, lift, gets, continue, handle, catch, roll, nested, ◌>>=◌,
}

-- Whether `m` returns or raises, a state with `P` goes to a state with `P`.
pub record Keeps {ℓ} {S E A : Type ℓ} (P : S → Type ℓ) (m : Exec S E A) : Type ℓ where
  pub run : (s : S) → P s → P (m s).1

module _ {ℓ} {S E A : Type ℓ} where
  roll-Keeps :
      (Q : S → Type ℓ) (back : S → S → S) (s : S) (r : Result E A) (s' : S)
      → Q (back s s')
      → Q s'
      → Q (roll back s (r, s')).1
  roll-Keeps Q back s (ok a) s' q p = p
  roll-Keeps Q back s (err e) s' q p = q

module _ {ℓ} {S E A : Type ℓ} {P : S → Type ℓ} where
  pub Keeps-pure : (a : A) → Keeps {E = E} P (pure a)
  unfolding pure
  Keeps-pure a = record { run = λ s p. p }

  pub Keeps-raise : (e : E) → Keeps {A = A} P (raise e)
  unfolding raise
  Keeps-raise e = record { run = λ s p. p }

  pub Keeps-lift : (r : Result E A) → Keeps P (lift r)
  unfolding lift
  Keeps-lift r = record { run = λ s p. p }

  pub Keeps-gets : (f : S → A) → Keeps {E = E} P (gets f)
  unfolding gets
  Keeps-gets f = record { run = λ s p. p }

  pub Keeps-if :
      (b : Bool) (m n : Exec S E A) → Keeps P m → Keeps P n → Keeps P (if b then m else n)
  Keeps-if true m n km kn = km
  Keeps-if false m n km kn = kn

  handle-Keeps :
      (h : E → Exec S E A) (r : Result E A) (s : S)
      → ((e : E) → Keeps P (h e))
      → P s
      → P (handle r h s).1
  handle-Keeps h (ok a) s kh p = p
  handle-Keeps h (err e) s kh p = (kh e).run s p

  pub Keeps-catch :
      (m : Exec S E A) (h : E → Exec S E A)
      → Keeps P m
      → ((e : E) → Keeps P (h e))
      → Keeps P (catch m h)
  unfolding catch
  Keeps-catch m h km kh = record {
    run = λ s p. let (r, s') = m s in handle-Keeps h r s' kh (km.run s p);
  }

  pub Keeps-nested :
      (back : S → S → S) (m : Exec S E A)
      → ((s s' : S) → P s → P (back s s'))
      → Keeps P m
      → Keeps P (nested back m)
  unfolding nested
  Keeps-nested back m kb km = record {
    run = λ s p. let (r, s') = m s in roll-Keeps P back s r s' (kb s s' p) (km.run s p);
  }

module _ {ℓ} {S E A B : Type ℓ} {P : S → Type ℓ} where
  continue-Keeps :
      (f : A → Exec S E B) (r : Result E A) (s : S)
      → ((a : A) → Keeps P (f a))
      → P s
      → P (continue r f s).1
  continue-Keeps f (ok a) s kf p = (kf a).run s p
  continue-Keeps f (err e) s kf p = p

  pub Keeps-bind :
      (m : Exec S E A) (f : A → Exec S E B)
      → Keeps P m
      → ((a : A) → Keeps P (f a))
      → Keeps P (m >>= f)
  unfolding ◌>>=◌
  Keeps-bind m f km kf = record {
    run = λ s p. let (r, s') = m s in continue-Keeps f r s' kf (km.run s p);
  }

pub ruleset keeps_rules =
    (Keeps-pure, Keeps-raise, Keeps-lift, Keeps-gets, Keeps-if, Keeps-catch, Keeps-bind)
