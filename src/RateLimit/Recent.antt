-- ===== src/RateLimit/Recent.antt =====
-- What one call of the limiter does to the events of a key.
use twirl.Prelude.{
  ℕ, suc, ◌+◌, ◌≤◌, ◌<◌, ◌≡◌, refl, true, false, ◌&&◌, List, [], ◌∷◌, ◌++◌, Text, text_eq,
  text_eq_refl, length, ltb, leb, arith, if◌then◌else◌,
}
use twirl.RateLimit.{RateLimiter, trim, put_events, allow}

-- How many events of the list lie in the window that ends at `t`.
unfoldable pub recent : (window t : ℕ) → List ℕ → ℕ
recent window t [] = 0
recent window t (e ∷ es) = (if leb e t && ltb t (e + window) then 1 else 0) + recent window t es

pub recent-le-length : (w t : ℕ) (es : List ℕ) → recent w t es ≤ length es
unfolding recent
recent-le-length w t [] = omega arith
recent-le-length w t (e ∷ es) = ground (arith, recent-le-length w t es)

pub recent-append :
    (w t : ℕ) (xs ys : List ℕ) → recent w t (xs ++ ys) ≡ recent w t xs + recent w t ys
unfolding recent
recent-append w t [] ys = omega arith
recent-append w t (x ∷ xs) ys = omega (arith, recent-append w t xs ys)

-- Trimming drops only what no window that ends from `now` on holds.
pub recent-trim : (w now t : ℕ) (es : List ℕ) → now ≤ t → recent w t (trim w now es) ≡ recent w t es
unfolding recent trim
recent-trim w now t [] h = refl
recent-trim w now t (e ∷ es) h = ground (arith, recent-trim w now t es h)

pub later_event :
    (w t now : ℕ) (log : List ℕ) → t < now → recent w t (log ++ now ∷ []) ≡ recent w t log
unfolding recent
later_event w t now log h = rw recent-append (ground arith)

pub length-trim : (w now : ℕ) (es : List ℕ) → length (trim w now es) ≤ length es
unfolding trim
length-trim w now [] = omega arith
length-trim w now (e ∷ es) = ground (arith, length-trim w now es)

pub other_key :
    (l : RateLimiter) (key k : Text) (now : ℕ)
    → text_eq key k ≡ false
    → (allow l k now).1.events key ≡ l.events key
unfolding allow put_events
other_key l key k now h = ground arith

pub settings :
    (l : RateLimiter) (k : Text) (now : ℕ)
    → ((allow l k now).1.window ≡ l.window) × ((allow l k now).1.max_events ≡ l.max_events)
unfolding allow put_events
settings l k now = ground arith

pub record Allowed (l : RateLimiter) (key : Text) (now : ℕ) : Type 0 where
  pub room : suc (length (trim l.window now (l.events key))) ≤ l.max_events
  pub events : (allow l key now).1.events key ≡ trim l.window now (l.events key) ++ now ∷ []

pub Allowed-allow :
    (l : RateLimiter) (key : Text) (now : ℕ) → (allow l key now).0 ≡ true → Allowed l key now
unfolding allow put_events
Allowed-allow l key now h = ground (arith, text_eq_refl key)

pub when_refused :
    (l : RateLimiter) (key : Text) (now : ℕ)
    → (allow l key now).0 ≡ false
    → (allow l key now).1.events key ≡ trim l.window now (l.events key)
unfolding allow put_events
when_refused l key now h = ground (arith, text_eq_refl key)
