-- ===== src/Otp/Sends.antt =====
-- otp.py: the times at which codes were sent to a phone.
use twirl.Prelude.{
  ℕ, ◌+◌, ◌≤◌, ◌<◌, ◌≡◌, refl, inl, inr, List, [], ◌∷◌, ◌++◌, Text, text_eq, arith, ltb,
  if◌then◌else◌, Bool-cases,
}
use twirl.RateLimit.Recent.{recent, recent-append, later_event}
use twirl.Otp.{PhoneCode, PhoneCodes, max_sends_per_hour, send_window, sent_last_hour}

-- When codes were sent to the phone.
unfoldable pub sends : Text → List PhoneCode → List ℕ
sends phone [] = []
sends phone (r ∷ rows) =
    let rest = sends phone rows in if text_eq r.phone phone then r.created_at ∷ rest else rest

abbrev pub AllUpTo : ℕ → List ℕ → Type 0
AllUpTo last [] = Unit
AllUpTo last (e ∷ es) = (e ≤ last) × AllUpTo last es

pub AllUpTo-later : (a b : ℕ) (es : List ℕ) → a ≤ b → AllUpTo a es → AllUpTo b es
AllUpTo-later a b [] le h = tt
AllUpTo-later a b (e ∷ es) le h = (omega (arith, h.0), AllUpTo-later a b es le h.1)

pub AllUpTo-snoc : (a : ℕ) (es : List ℕ) → AllUpTo a es → AllUpTo a (es ++ a ∷ [])
AllUpTo-snoc a [] h = (omega arith, tt)
AllUpTo-snoc a (e ∷ es) h = (h.0, AllUpTo-snoc a es h.1)

-- Of events up to `now`, a later window holds no more than the one that ends now.
pub recent-later :
    (w now t : ℕ) (es : List ℕ) → AllUpTo now es → now ≤ t → recent w t es ≤ recent w now es
unfolding recent
recent-later w now t [] h le = omega arith
recent-later w now t (e ∷ es) h le = ground (arith, recent-later w now t es h.1 le, h.0)

pub sent_last_hour-recent :
    (phone : Text) (now seq : ℕ) (rows : List PhoneCode)
    → AllUpTo now (sends phone rows)
    → sent_last_hour (record { rows = rows; seq = seq }) phone now
      ≡ recent send_window now (sends phone rows)
unfolding sent_last_hour sends recent
sent_last_hour-recent phone now seq [] h = refl
sent_last_hour-recent phone now seq (r ∷ rows) h = elim (Bool-cases (text_eq r.phone phone)) [
  | inl e ↦ ground (arith, sent_last_hour-recent phone now seq rows (rw e at h).1, (rw e at h).0)
  | inr e ↦ ground (arith, sent_last_hour-recent phone now seq rows (rw e at h))
]

pub sends-append :
    (phone : Text) (xs ys : List PhoneCode)
    → sends phone (xs ++ ys) ≡ sends phone xs ++ sends phone ys
unfolding sends
sends-append phone [] ys = refl
sends-append phone (r ∷ xs) ys = ground (arith, sends-append phone xs ys)

-- What holds between the calls.
pub record IsPaced (phone : Text) (last : ℕ) (t : PhoneCodes) : Type 0 where
  pub past : AllUpTo last (sends phone t.rows)
  pub limited : (at : ℕ) → recent send_window at (sends phone t.rows) ≤ max_sends_per_hour

pub one_more :
    (now at : ℕ) (es : List ℕ)
    → recent send_window at es ≤ recent send_window now es
    → recent send_window now es < max_sends_per_hour
    → recent send_window at es + recent send_window at (now ∷ []) ≤ max_sends_per_hour
unfolding recent
one_more now at es h room = ground arith

-- Adding a send now, where the hour that ends now had room.
pub limited_with_now :
    (now : ℕ) (es : List ℕ)
    → AllUpTo now es
    → ((at : ℕ) → recent send_window at es ≤ max_sends_per_hour)
    → recent send_window now es < max_sends_per_hour
    → (at : ℕ) → recent send_window at (es ++ now ∷ []) ≤ max_sends_per_hour
limited_with_now now es past limited room at = elim (Bool-cases (ltb at now)) [
  | inl before ↦ rw (later_event send_window at now es (ground arith)) (limited at)
  | inr from_now ↦
      rw (recent-append send_window at es (now ∷ []))
        (one_more now at es (recent-later send_window now at es past (ground arith)) room)
]
