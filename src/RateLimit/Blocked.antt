-- ===== src/RateLimit/Blocked.antt =====
-- `blocked` and `allow` against the events of the window.
use twirl.Prelude.{
  ℕ, ◌+◌, ◌≤◌, ◌<◌, ◌≡◌, refl, inl, inr, List, [], ◌∷◌, Text, arith, length, ltb, leb, Bool-cases,
}
use twirl.RateLimit.{RateLimiter, trim, blocked, allow}
use twirl.RateLimit.Recent.{recent}

-- Events from `first` to `now`, in the order of the clock.
abbrev pub IsTimeline : (first now : ℕ) → List ℕ → Type 0
IsTimeline first now [] = Unit
IsTimeline first now (e ∷ es) = (first ≤ e) × (e ≤ now) × IsTimeline e now es

-- Where the first event is in the window, all are.
recent_all :
    (w now first : ℕ) (es : List ℕ)
    → now < first + w
    → IsTimeline first now es
    → recent w now es ≡ length es
unfolding recent
recent_all w now first [] fresh t = refl
recent_all w now first (e ∷ es) fresh t =
    ground (arith, recent_all w now e es (omega (arith, fresh, t.0)) t.2, t.0, t.1)

length-trim-recent :
    (w now first : ℕ) (es : List ℕ)
    → IsTimeline first now es
    → length (trim w now es) ≡ recent w now es
unfolding trim recent
length-trim-recent w now first [] t = refl
length-trim-recent w now first (e ∷ es) t = elim (Bool-cases (leb (e + w) now)) [
  | inl old ↦ rw old (ground (arith, length-trim-recent w now e es t.2))
  | inr fresh ↦ rw fresh (ground (arith, recent_all w now e es (ground arith) t.2, t.1))
]

-- For a key whose events stand in the order of the clock, none of them after now: `blocked` says whether
-- the events of the window that ends now reach the limit, and `allow` says yes exactly when they do not.
pub blocked-recent :
    (l : RateLimiter) (key : Text) (now : ℕ)
    → IsTimeline 0 now (l.events key)
    → ((blocked l key now).0 ≡ leb l.max_events (recent l.window now (l.events key)))
      × ((allow l key now).0 ≡ ltb (recent l.window now (l.events key)) l.max_events)
unfolding blocked allow
blocked-recent l key now t =
    let e = length-trim-recent l.window now 0 (l.events key) t in
    (
      rw e refl,
      elim (Bool-cases (leb l.max_events (recent l.window now (l.events key)))) [
        | inl full ↦ rw e (rw full (ground arith))
        | inr room ↦ rw e (rw room (ground arith))
      ],
    )
