-- ===== src/Exec.antt =====
-- Python code that raises, and code that also writes to the session: what a call wrote before it
-- raised is still there after the raise, until a savepoint or the web layer rolls it back.
pub mod Keeps
pub mod Holds
use twirl.Prelude.{Bool, true, false, if◌then◌else◌, ◌≡◌, refl, ◌⊎◌, inl, inr}

pub data Result {ℓ} (E A : Type ℓ) : Type ℓ where
  ok : A → Result E A
  err : E → Result E A

pub Result-cases {ℓ} :
    {E A : Type ℓ} (r : Result E A) → ((a : A) × (r ≡ ok a)) ⊎ ((e : E) × (r ≡ err e))
Result-cases (ok a) = inl (a, refl)
Result-cases (err e) = inr (e, refl)

module _ {ℓ} {E A B : Type ℓ} where
  -- a step of pure code
  abbrev pub and_then : Result E A → (A → Result E B) → Result E B
  and_then (ok a) f = f a
  and_then (err e) f = err e

abbrev pub Exec {ℓ} : Type ℓ → Type ℓ → Type ℓ → Type ℓ
Exec S E A = S → Result E A × S

module _ {ℓ} {S E A : Type ℓ} where
  unfoldable pub pure : A → Exec S E A
  pure a s = (ok a, s)

  unfoldable pub raise : E → Exec S E A
  raise e s = (err e, s)

  -- a call of pure code that may raise
  unfoldable pub lift : Result E A → Exec S E A
  lift r s = (r, s)

  unfoldable pub gets : (S → A) → Exec S E A
  gets f s = (ok (f s), s)

module _ {ℓ} {S E A B : Type ℓ} where
  abbrev pub continue : Result E A → (A → Exec S E B) → Exec S E B
  continue (ok a) f s = f a s
  continue (err e) f s = (err e, s)

  infixl 5 ◌>>=◌ ◌>>◌
  unfoldable pub ◌>>=◌ : Exec S E A → (A → Exec S E B) → Exec S E B
  unfolding pure raise lift gets
  ◌>>=◌ m f s = let (r, s') = m s in continue r f s'

  abbrev pub ◌>>◌ : Exec S E A → Exec S E B → Exec S E B
  m >> n = m >>= λ _. n

module _ {ℓ} {S E A : Type ℓ} where
  abbrev pub handle : Result E A → (E → Exec S E A) → Exec S E A
  handle (ok a) h s = (ok a, s)
  handle (err e) h s = h e s

  -- try: m; except E as e: h e
  unfoldable pub catch : Exec S E A → (E → Exec S E A) → Exec S E A
  catch m h s = let (r, s') = m s in handle r h s'

  abbrev pub roll : (S → S → S) → S → Result E A × S → Result E A × S
  roll back s (ok a, s') = (ok a, s')
  roll back s (err e, s') = (err e, back s s')

  -- `with session.begin_nested(): m`: a raise undoes what `m` wrote, and `back s s'` says which
  -- parts of the later state `s'` outlive that.
  unfoldable pub nested : (S → S → S) → Exec S E A → Exec S E A
  nested back m s = roll back s (m s)
