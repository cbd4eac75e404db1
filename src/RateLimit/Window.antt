-- ===== src/RateLimit/Window.antt =====
-- ratelimit.py: runs of `allow` and the window.
use twirl.Prelude.{
  ℕ, ◌≤◌, ◌≡◌, inl, inr, true, false, ◌&&◌, List, [], ◌∷◌, ◌++◌, Text, text_eq, text_eq_refl,
  eq_of_text_eq, subst, length, length-append, ltb, arith, if◌then◌else◌, Bool-cases,
}
use mathlib.Core.List.{append-nil, append_assoc}
use twirl.RateLimit.{RateLimiter, trim, allow}
use twirl.RateLimit.Recent.{
  recent, recent-le-length, recent-append, recent-trim, later_event, length-trim, other_key,
  settings, Allowed, Allowed-allow, when_refused,
}

-- The times at which `allow` said yes to `key`, for a run of calls on any keys.
pub accept_log : RateLimiter → Text → List (Text × ℕ) → List ℕ
accept_log l key [] = []
accept_log l key ((k, now) ∷ calls) =
    let rest = accept_log (allow l k now).1 key calls in
    if (allow l k now).0 && text_eq key k then now ∷ rest else rest

-- The calls come in the order of the clock.
abbrev pub InOrder : ℕ → List (Text × ℕ) → Type 0
InOrder last [] = Unit
InOrder last ((k, now) ∷ calls) = (last ≤ now) × InOrder now calls

-- What holds of a key between calls, `past` being the events allowed so far.
pub record IsKept (key : Text) (last : ℕ) (past : List ℕ) (l : RateLimiter) : Type 0 where
  pub bounded : length (l.events key) ≤ l.max_events
  pub covered : (t : ℕ) → last ≤ t → recent l.window t past ≤ recent l.window t (l.events key)
  pub limited : (t : ℕ) → recent l.window t past ≤ l.max_events

module _ (key : Text) (last now : ℕ) (past : List ℕ) (l : RateLimiter)
    (kept : IsKept key last past l) (later : last ≤ now) where
  same_settings :
      (k : Text) (es : List ℕ)
      → (allow l k now).1.events key ≡ es
      → length es ≤ l.max_events
      → (past' : List ℕ) → ((t : ℕ) → now ≤ t → recent l.window t past' ≤ recent l.window t es)
      → ((t : ℕ) → recent l.window t past' ≤ l.max_events)
      → IsKept key now past' (allow l k now).1
  same_settings k es e room past' cov lim = record {
    bounded = rw (e, (settings l k now).1) room;
    covered = rw (e, (settings l k now).0) cov;
    limited = rw ((settings l k now).0, (settings l k now).1) lim;
  }

  step_other : (k : Text) → text_eq key k ≡ false → IsKept key now past (allow l k now).1
  step_other k ne =
      same_settings k (l.events key) (other_key l key k now ne) kept.bounded past
        (λ t h. kept.covered t (omega arith)) kept.limited

  covers_trimmed :
      (t : ℕ)
      → now ≤ t
      → recent l.window t past ≤ recent l.window t (trim l.window now (l.events key))
  covers_trimmed t h =
      omega (arith, kept.covered t (omega arith), recent-trim l.window now t (l.events key) h)

  step_refused : (allow l key now).0 ≡ false → IsKept key now past (allow l key now).1
  step_refused r =
      same_settings key (trim l.window now (l.events key)) (when_refused l key now r)
        (omega (arith, length-trim l.window now (l.events key), kept.bounded)) past covers_trimmed
        kept.limited

  with_now :
      (t : ℕ)
      → now ≤ t
      → recent l.window t (past ++ now ∷ [])
        ≤ recent l.window t (trim l.window now (l.events key) ++ now ∷ [])
  with_now t h = rw (recent-append l.window t past (now ∷ [])) (
      rw (recent-append l.window t (trim l.window now (l.events key)) (now ∷ []))
        (omega (arith, covers_trimmed t h)))

  length-with_now :
      (a : Allowed l key now) → length (trim l.window now (l.events key) ++ now ∷ []) ≤ l.max_events
  length-with_now a =
      omega (arith, a.room, length-append {0} (trim l.window now (l.events key)) (now ∷ []))

  limit_with_now :
      (a : Allowed l key now) (t : ℕ) → recent l.window t (past ++ now ∷ []) ≤ l.max_events
  limit_with_now a t = elim (Bool-cases (ltb t now)) [
    | inl before ↦ rw (later_event l.window t now past (ground arith)) (kept.limited t)
    | inr from_now ↦ omega (
      arith,
      with_now t (ground arith),
      recent-le-length l.window t (trim l.window now (l.events key) ++ now ∷ []),
      length-with_now a,
    )
  ]

  step_allowed : (allow l key now).0 ≡ true → IsKept key now (past ++ now ∷ []) (allow l key now).1
  step_allowed r =
      let a = Allowed-allow l key now r in
      same_settings key (trim l.window now (l.events key) ++ now ∷ []) a.events (length-with_now a)
        (past ++ now ∷ []) with_now (limit_with_now a)

-- One call at any key, with what it adds to the log of `key`.
abbrev accepted : RateLimiter → Text → Text → ℕ → List ℕ
accepted l key k now = if (allow l k now).0 && text_eq key k then now ∷ [] else []

accepted-other :
    (l : RateLimiter) (key k : Text) (now : ℕ) → text_eq key k ≡ false → accepted l key k now ≡ []
accepted-other l key k now h = ground arith

accepted-yes :
    (l : RateLimiter) (key : Text) (now : ℕ)
    → (allow l key now).0 ≡ true
    → accepted l key key now ≡ now ∷ []
accepted-yes l key now h = rw (h, text_eq_refl key)

accepted-no :
    (l : RateLimiter) (key : Text) (now : ℕ)
    → (allow l key now).0 ≡ false
    → accepted l key key now ≡ []
accepted-no l key now h = rw h

module _ (key : Text) (last now : ℕ) (past : List ℕ) (l : RateLimiter)
    (kept : IsKept key last past l) (later : last ≤ now) where
  step_self : IsKept key now (past ++ accepted l key key now) (allow l key now).1
  step_self = elim (Bool-cases (allow l key now).0) [
    | inl y ↦ rw (accepted-yes l key now y) (step_allowed key last now past l kept later y)
    | inr n ↦
        rw (accepted-no l key now n) (rw append-nil (step_refused key last now past l kept later n))
  ]

  step_key : (k : Text) → IsKept key now (past ++ accepted l key k now) (allow l k now).1
  step_key k = elim (Bool-cases (text_eq key k)) [
    | inr other ↦
        rw (accepted-other l key k now other)
          (rw append-nil (step_other key last now past l kept later k other))
    | inl own ↦
        subst (λ (x : Text). IsKept key now (past ++ accepted l key x now) (allow l x now).1)
          (eq_of_text_eq key k own) step_self
  ]

accept_log-cons :
    (l : RateLimiter) (key k : Text) (now : ℕ) (calls : List (Text × ℕ))
    → accept_log l key ((k, now) ∷ calls)
      ≡ accepted l key k now ++ accept_log (allow l k now).1 key calls
unfolding accept_log
accept_log-cons l key k now calls = ground arith

log_limited :
    (key : Text) (calls : List (Text × ℕ)) (last : ℕ) (past : List ℕ) (l : RateLimiter)
    → IsKept key last past l
    → InOrder last calls
    → (t : ℕ) → recent l.window t (past ++ accept_log l key calls) ≤ l.max_events
log_limited key [] last past l kept order t = unfold accept_log in rw append-nil (kept.limited t)
log_limited key ((k, now) ∷ calls) last past l kept order t =
    let l' = (allow l k now).1 in
    let rest =
      log_limited key calls now (past ++ accepted l key k now) l'
        (step_key key last now past l kept order.0 k) order.1 t in
    rw (accept_log-cons l key k now calls) (
      rw (← append_assoc past (accepted l key k now) (accept_log l' key calls))
        (rw ((settings l k now).0, (settings l k now).1) at rest))

-- However the calls of `allow` for all keys are interleaved, as long as the clock does not go back: in any
-- stretch of time as long as the window, at most `max_events` calls were allowed for a key that started
-- with no events.
pub window_limit :
    (l : RateLimiter) (key : Text) (calls : List (Text × ℕ)) (t : ℕ)
    → l.events key ≡ []
    → InOrder 0 calls
    → recent l.window t (accept_log l key calls) ≤ l.max_events
window_limit l key calls t none_yet order =
    log_limited key calls 0 [] l
      (record {
        bounded = rw none_yet (omega arith);
        covered = λ t h. unfold recent in omega arith;
        limited = λ t. unfold recent in omega arith;
      })
      order t
