-- ===== src/RateLimit.antt =====
-- ratelimit.py: the sliding window of the login and request limiters. The monotonic clock counts ticks.
pub mod Recent
pub mod Blocked
pub mod Window
use twirl.Prelude.{
  ℕ, suc, ◌+◌, Bool, true, false, List, [], ◌∷◌, ◌++◌, Text, text_eq, length, leb, if◌then◌else◌,
}

-- `_events` is a defaultdict: a key that was never seen has an empty deque, oldest event first.
pub record RateLimiter : Type 0 where
  pub max_events : ℕ
  pub window : ℕ
  pub events : Text → List ℕ

-- while events and events[0] <= now - self.window: events.popleft()
unfoldable pub trim : (window now : ℕ) → List ℕ → List ℕ
trim window now [] = []
trim window now (e ∷ es) =
    let rest = trim window now es in if leb (e + window) now then rest else e ∷ es

-- self._events[key] is changed in place
unfoldable pub put_events : RateLimiter → Text → List ℕ → RateLimiter
put_events l key es = record l { events = λ k. if text_eq k key then es else l.events k }

unfoldable pub blocked : RateLimiter → Text → ℕ → Bool × RateLimiter
blocked l key now =
    let es = trim l.window now (l.events key) in (leb l.max_events (length es), put_events l key es)

unfoldable pub record_event : RateLimiter → Text → ℕ → RateLimiter
record_event l key now = put_events l key (trim l.window now (l.events key) ++ now ∷ [])

unfoldable pub allow : RateLimiter → Text → ℕ → Bool × RateLimiter
allow l key now =
    let es = trim l.window now (l.events key) in
    if leb l.max_events (length es)
    then (false, put_events l key es)
    else (true, put_events l key (es ++ now ∷ []))
