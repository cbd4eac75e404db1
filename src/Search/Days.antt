-- ===== src/Search/Days.antt =====
-- search.py: which shops can serve which event dates, and the windows of days they need.
use twirl.Prelude.{
  ℕ, zero, suc, ◌-◌, ◌*◌, ◌%◌, Bool, true, false, ◌&&◌, ◌||◌, Option, none, some, List, [], ◌∷◌,
  ◌++◌, Text, text_eq, is_empty, where_, take, ◌==◌, if◌then◌else◌,
}
use twirl.Exec.{Result, ok, err, and_then}
use twirl.Errors.{Error, invalid_dates}
use twirl.Model.{Db, Shop, is_published}
use twirl.Dates.{
  RentalDates, ShopRules, add_days, weekday, derive_rental_dates, validate_rental_dates,
  blocked_range, rules_for_shop,
}

-- a filter on a text, which neither None nor the empty text sets
abbrev pub wants : Option Text → Text → Bool
wants none t = true
wants (some s) t = is_empty s || text_eq t s

-- `_published_shops`
unfoldable pub published_shops : Option Text → Db → List Shop
published_shops city db = where_ (λ s. is_published s.status && wants city s.city) db.shops

-- derive_rental_dates, then validate_rental_dates of its result
unfoldable pub checked_dates : ℕ → ShopRules → (today : ℕ) → Result Error RentalDates
checked_dates event rules today =
    and_then (derive_rental_dates event rules)
      λ dates. and_then (validate_rental_dates dates rules today (some event)) λ _. ok dates

-- except InvalidDates: other
abbrev pub on_invalid_dates : {A : Type 0} → Result Error A → A → Result Error A
on_invalid_dates (ok a) other = ok a
on_invalid_dates (err (invalid_dates code)) other = ok other
on_invalid_dates (err e) other = err e

-- `_can_serve`
unfoldable pub can_serve : Shop → (event today : ℕ) → Result Error Bool
unfolding checked_dates
can_serve shop event today =
    on_invalid_dates (and_then (checked_dates event (rules_for_shop shop) today) (λ _. ok true))
      false

-- any(_can_serve(shop, day, today) for shop in shops), which stops at the first that can
unfoldable pub any_can_serve : List Shop → (day today : ℕ) → Result Error Bool
unfolding can_serve
any_can_serve [] day today = ok false
any_can_serve (s ∷ ss) day today =
    and_then (can_serve s day today)
      λ served. if served then ok true else any_can_serve ss day today

-- the loop of `earliest_date`, at an offset and with the rounds that it has left
unfoldable pub earliest_from : List Shop → (today offset rounds : ℕ) → Result Error (Option ℕ)
unfolding any_can_serve
earliest_from shops today offset zero = ok none
earliest_from shops today offset (suc rounds) = and_then (add_days today offset) λ day.
    and_then (any_can_serve shops day today)
      λ served. if served then ok (some day) else earliest_from shops today (suc offset) rounds

unfoldable pub earliest_date : Option Text → (today horizon : ℕ) → Db → Result Error (Option ℕ)
unfolding earliest_from
earliest_date city today horizon db = earliest_from (published_shops city db) today 1 horizon

-- (5 - today.weekday()) % 7 or 7, in Python's remainder, which is not negative
abbrev pub to_saturday : ℕ → ℕ
to_saturday today = let days = (12 - weekday today) % 7 in if days == 0 then 7 else days

-- the candidates from a week on that some shop can serve, with the weeks that are left
unfoldable pub served_weeks : List Shop → (today first week rounds : ℕ) → Result Error (List ℕ)
unfolding any_can_serve
served_weeks shops today first week zero = ok []
served_weeks shops today first week (suc rounds) = and_then (add_days first (7 * week)) λ day.
    and_then (any_can_serve shops day today) λ served.
      and_then (served_weeks shops today first (suc week) rounds)
        λ rest. ok (if served then day ∷ rest else rest)

unfoldable pub upcoming_saturdays :
    Option Text → (today count horizon : ℕ) → Db → Result Error (List ℕ)
unfolding served_weeks
upcoming_saturdays city today count horizon db =
    and_then (add_days today (to_saturday today)) λ first.
      and_then (served_weeks (published_shops city db) today first 0 horizon)
        λ days. ok (take count days)

-- A window of days, and the shops that need it.
pub record Window : Type 0 where
  pub start : ℕ
  pub end : ℕ
  pub shop_ids : List ℕ

-- windows.setdefault(window, []).append(shop_id), of a dict in the order of its insertions
unfoldable pub add_window : (start end shop_id : ℕ) → List Window → List Window
add_window start end shop_id [] = record { start = start; end = end; shop_ids = shop_id ∷ [] } ∷ []
add_window start end shop_id (w ∷ ws) =
    let rest = add_window start end shop_id ws in
    if w.start == start && w.end == end
    then record w { shop_ids = w.shop_ids ++ shop_id ∷ [] } ∷ ws
    else w ∷ rest

-- the part of the loop of `_date_condition` after its `try`
abbrev pub blocked_window : ShopRules → Option RentalDates → Result Error (Option (ℕ × ℕ))
blocked_window rules none = ok none
blocked_window rules (some dates) =
    and_then (blocked_range dates rules.prep_days rules.cleaning_days) λ w. ok (some w)

-- the window that a shop's dates for the event need, or none where it cannot serve it
unfoldable pub window_for : Shop → (event today : ℕ) → Result Error (Option (ℕ × ℕ))
unfolding checked_dates
window_for shop event today =
    let rules = rules_for_shop shop in
    and_then
      (on_invalid_dates (and_then (checked_dates event rules today) (λ dates. ok (some dates)))
        none)
      (blocked_window rules)

abbrev pub with_window : ℕ → Option (ℕ × ℕ) → List Window → List Window
with_window shop_id none ws = ws
with_window shop_id (some (start, end)) ws = add_window start end shop_id ws

-- the loop of `_date_condition`
unfoldable pub collect_windows :
    List Shop → (event today : ℕ) → List Window → Result Error (List Window)
unfolding window_for add_window
collect_windows [] event today ws = ok ws
collect_windows (s ∷ ss) event today ws =
    and_then (window_for s event today) λ w. collect_windows ss event today (with_window s.id w ws)

-- if not windows: return None
abbrev pub if_any : List Window → Option (List Window)
if_any [] = none
if_any (w ∷ ws) = some (w ∷ ws)

-- `_date_condition`: none where no shop can serve the date
unfoldable pub date_condition :
    (event : ℕ) → Option Text → (today : ℕ) → Db → Result Error (Option (List Window))
unfolding collect_windows
date_condition event city today db =
    and_then (collect_windows (published_shops city db) event today []) λ ws. ok (if_any ws)
