-- ===== src/Search/Windows.antt =====
-- search.py: `_date_condition`
use twirl.Prelude.{
  ℕ, ◌≡◌, refl, Bool, false, ◌&&◌, ◌||◌, Option, none, some, List, [], ◌∷◌, ◌++◌, Text, any, arith,
  ◌==◌,
}
use twirl.Exec.{Result, ok, err, and_then}
use twirl.Errors.{Error}
use twirl.Model.{Db, Shop, Booking, Item}
use twirl.Search.Days.{
  Window, add_window, with_window, collect_windows, if_any, date_condition, window_for,
  published_shops,
}
use twirl.Search.Pages.{meets, is_clear}

module _ (bookings : List Booking) (i : Item) where
  -- The item belongs to the shop, and is clear in the window.
  abbrev pub clear_for : ℕ → Option (ℕ × ℕ) → Bool
  clear_for shop_id none = false
  clear_for shop_id (some (start, end)) = shop_id == i.shop_id && is_clear start end bookings i

  abbrev pub clear_in : ℕ → Result Error (Option (ℕ × ℕ)) → Bool
  clear_in shop_id (ok w) = clear_for shop_id w
  clear_in shop_id (err e) = false

  -- The shop can serve the date, and the item is its and clear in the window it needs.
  abbrev pub serves : (event today : ℕ) → Shop → Bool
  serves event today shop = clear_in shop.id (window_for shop event today)

  any-append_one :
      (p : ℕ → Bool) (ids : List ℕ) (n : ℕ) → any p (ids ++ n ∷ []) ≡ (p n || any p ids)
  any-append_one p [] n = ground arith
  any-append_one p (m ∷ ids) n = ground (arith, any-append_one p ids n)

  meets-add_window :
      (start end shop_id : ℕ) (ws : List Window)
      → meets (some (add_window start end shop_id ws)) bookings i
        ≡ (clear_for shop_id (some (start, end)) || meets (some ws) bookings i)
  unfolding add_window meets
  meets-add_window start end shop_id [] = ground arith
  meets-add_window start end shop_id (w ∷ ws) = ground (
    arith,
    meets-add_window start end shop_id ws,
    any-append_one (λ (id : ℕ). id == i.shop_id) w.shop_ids shop_id,
  )

  meets-with_window :
      (shop_id : ℕ) (w : Option (ℕ × ℕ)) (ws : List Window)
      → meets (some (with_window shop_id w ws)) bookings i
        ≡ (clear_for shop_id w || meets (some ws) bookings i)
  meets-with_window shop_id none ws = refl
  meets-with_window shop_id (some (start, end)) ws = meets-add_window start end shop_id ws

  -- One round of the loop, whose rounds to come are `rest`.
  meets-round :
      (shop_id : ℕ) (w : Result Error (Option (ℕ × ℕ))) (ws found : List Window) (later : Bool)
      (rest : List Window → Result Error (List Window))
      → ((ws' : List Window)
          → rest ws' ≡ ok found
          → meets (some found) bookings i ≡ (later || meets (some ws') bookings i))
      → and_then w (λ x. rest (with_window shop_id x ws)) ≡ ok found
      → meets (some found) bookings i
        ≡ ((clear_in shop_id w || later) || meets (some ws) bookings i)
  meets-round shop_id (err e) ws found later rest ih h = cc
  meets-round shop_id (ok w) ws found later rest ih h =
      ground (arith, ih (with_window shop_id w ws) h, meets-with_window shop_id w ws)

  meets-collect_windows :
      (event today : ℕ) (shops : List Shop) (ws found : List Window)
      → collect_windows shops event today ws ≡ ok found
      → meets (some found) bookings i
        ≡ (any (serves event today) shops || meets (some ws) bookings i)
  unfolding collect_windows
  meets-collect_windows event today [] ws found h = ground arith
  meets-collect_windows event today (s ∷ ss) ws found h =
      meets-round s.id (window_for s event today) ws found (any (serves event today) ss)
        (collect_windows ss event today) (λ ws' e. meets-collect_windows event today ss ws' found e)
        h

  windows_found :
      (r : Result Error (List Window)) (ws : List Window)
      → and_then r (λ x. ok (if_any x)) ≡ ok (some ws)
      → r ≡ ok ws
  windows_found (ok []) ws h = cc
  windows_found (ok (w ∷ ws')) ws h = cc
  windows_found (err e) ws h = cc

  -- The condition that `_date_condition` returns lets an item through where a published shop of the
  -- city can serve the date with it.
  pub meets-date_condition :
      (event : ℕ) (city : Option Text) (today : ℕ) (db : Db) (ws : List Window)
      → date_condition event city today db ≡ ok (some ws)
      → meets (some ws) bookings i ≡ any (serves event today) (published_shops city db)
  unfolding date_condition meets
  meets-date_condition event city today db ws h =
      let all_shops =
        meets-collect_windows event today (published_shops city db) [] ws
          (windows_found (collect_windows (published_shops city db) event today []) ws h) in
      ground (arith, all_shops)
