-- ===== src/Exclusion/Requests.antt =====
-- `create_request`, its rivals, and the jobs of the scheduler under the exclusion constraint.
use twirl.Prelude.{ℕ, zero, suc, Bool, Option, none, some, List, [], ◌∷◌, Text}
use twirl.Exec.{Exec}
use twirl.Exec.Keeps.{Keeps, Keeps-pure, Keeps-bind, Keeps-gets}
use twirl.Errors.{Error}
use twirl.Host.{Host}
use twirl.Model.{Db, Booking, BookingStatus, Item, Notification}
use twirl.Requests.{
  RentalRequest, Rivals, Plan, others_commit, lost_race, try_insert, link_if, announce,
  after_insert, round_with, round, attempts, create_request,
}
use twirl.Jobs.{
  Outcome, transition_all, expire_all, expire_stale_requests, mark_no_shows, mark_not_returned,
  deliver_notifications,
}
use twirl.Exclusion.Writes.{IsExclusive}
use twirl.Exclusion.Steps.{steps, transition-IsExclusive}

-- What the database sees to: rivals that start from exclusive bookings commit exclusive bookings.
abbrev pub AreLawful : Rivals → Type 0
AreLawful rivals = (n : ℕ) (db : Db) → IsExclusive db → IsExclusive (rivals.commits n db)

others_commit-IsExclusive :
    (f : Db → Db)
    → ((db : Db) → IsExclusive db → IsExclusive (f db))
    → Keeps IsExclusive (others_commit f)
unfolding others_commit
others_commit-IsExclusive f k = record { run = λ db h. k db h }

lost_race-IsExclusive : (e : Error) → Keeps IsExclusive (lost_race e)
unfolding lost_race
lost_race-IsExclusive e = search steps

try_insert-IsExclusive : (b : Booking) → Keeps IsExclusive (try_insert b)
unfolding try_insert
try_insert-IsExclusive b = search (steps, lost_race-IsExclusive) depth 8

link_if-IsExclusive : (shop_id : ℕ) (o : Option ℕ) → Keeps IsExclusive (link_if shop_id o)
unfolding link_if
link_if-IsExclusive shop_id none = search steps
link_if-IsExclusive shop_id (some id) = search steps

announce-IsExclusive : (host : Host) (row : Booking) → Keeps IsExclusive (announce host row)
unfolding announce
announce-IsExclusive host row = search (steps, link_if-IsExclusive) depth 9

after_insert-IsExclusive :
    (host : Host) (again : Exec Db Error Booking) (o : Option Booking)
    → Keeps IsExclusive again
    → Keeps IsExclusive (after_insert host again o)
unfolding after_insert
after_insert-IsExclusive host again none k = k
after_insert-IsExclusive host again (some row) k = announce-IsExclusive host row

round_with-IsExclusive :
    (host : Host) (req : RentalRequest) (p : Plan) (c : ℕ) (f : Db → Db)
    (again : Exec Db Error Booking) (i : Item)
    → ((db : Db) → IsExclusive db → IsExclusive (f db))
    → Keeps IsExclusive again
    → Keeps IsExclusive (round_with host req p c f again i)
unfolding round_with
round_with-IsExclusive host req p c f again i kf k =
    search (steps, others_commit-IsExclusive, try_insert-IsExclusive, after_insert-IsExclusive)
      depth 8

round-IsExclusive :
    (host : Host) (req : RentalRequest) (p : Plan) (c : ℕ) (f : Db → Db)
    (again : Exec Db Error Booking) (o : Option Item)
    → ((db : Db) → IsExclusive db → IsExclusive (f db))
    → Keeps IsExclusive again
    → Keeps IsExclusive (round host req p c f again o)
unfolding round
round-IsExclusive host req p c f again none kf k = search steps
round-IsExclusive host req p c f again (some i) kf k =
    round_with-IsExclusive host req p c f again i kf k

module _ (host : Host) (rivals : Rivals) (req : RentalRequest) (lawful : AreLawful rivals) where
  attempts-IsExclusive : (p : Plan) (c n : ℕ) → Keeps IsExclusive (attempts host rivals req p c n)
  unfolding attempts
  attempts-IsExclusive p c zero = search steps
  attempts-IsExclusive p c (suc n) = Keeps-bind _ _ (Keeps-gets _) λ picked.
      round-IsExclusive host req p c (rivals.commits n) (attempts host rivals req p c n) picked
        (lawful n) (attempts-IsExclusive p c n)

  pub create_request-IsExclusive :
      (today max_attempts : ℕ)
      → Keeps IsExclusive (create_request host rivals req today max_attempts)
  unfolding create_request
  create_request-IsExclusive today max_attempts = search (steps, attempts-IsExclusive) depth 8

transition_all-IsExclusive :
    (to : BookingStatus) (r : Text) (rows : List Booking)
    → Keeps IsExclusive (transition_all to r rows)
unfolding transition_all
transition_all-IsExclusive to r [] = Keeps-pure tt
transition_all-IsExclusive to r (b ∷ rows) =
    Keeps-bind _ _ (transition-IsExclusive _ _ _ _) (λ _. transition_all-IsExclusive to r rows)

expire_all-IsExclusive :
    (host : Host) (h : ℕ) (rows : List Booking) → Keeps IsExclusive (expire_all host h rows)
unfolding expire_all
expire_all-IsExclusive host h [] = Keeps-pure tt
expire_all-IsExclusive host h (b ∷ rows) = Keeps-bind _ _ (transition-IsExclusive _ _ _ _) λ row.
    Keeps-bind _ _ (Keeps-gets _)
      λ payload. Keeps-bind _ _ (search steps) (λ _. expire_all-IsExclusive host h rows)

pub expire_stale_requests-IsExclusive :
    (host : Host) (now h : ℕ) → Keeps IsExclusive (expire_stale_requests host now h)
unfolding expire_stale_requests
expire_stale_requests-IsExclusive host now h = search (steps, expire_all-IsExclusive)

pub mark_no_shows-IsExclusive : (today : ℕ) → Keeps IsExclusive (mark_no_shows today)
unfolding mark_no_shows
mark_no_shows-IsExclusive today = search (steps, transition_all-IsExclusive)

pub mark_not_returned-IsExclusive : (today : ℕ) → Keeps IsExclusive (mark_not_returned today)
unfolding mark_not_returned
mark_not_returned-IsExclusive today = search (steps, transition_all-IsExclusive)

pub deliver_notifications-IsExclusive :
    (send : Notification → Outcome) (at : ℕ) (locked : ℕ → Bool) (limit : ℕ)
    → Keeps IsExclusive (deliver_notifications send at locked limit)
unfolding deliver_notifications
deliver_notifications-IsExclusive send at locked limit = record {
  run = λ db h. record { apart = h.apart };
}
