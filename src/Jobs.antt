-- ===== src/Jobs.antt =====
-- jobs.py: what the scheduler runs. Times count microseconds.
pub mod Delivery
pub mod Sweep
pub mod Ended
use twirl.Prelude.{
  ℕ, zero, suc, ◌+◌, ◌*◌, Bool, true, false, not, ◌&&◌, Option, none, some, List, [], ◌∷◌, ◌++◌,
  map, Text, codes, show, take, length, where_, sort_by, ltb, leb, ◌==◌, if◌then◌else◌,
}
use twirl.Exec.{Exec, pure, gets, ◌>>=◌, ◌>>◌}
use twirl.Errors.{Error}
use twirl.Host.{Host}
use twirl.Model.{
  Db, Booking, BookingStatus, Notification, system_actor, pending_shop, confirmed, picked_up,
  cancelled_by_shop, no_show, not_returned, same_status, is_block, is_queued, sent, failed,
  request_expired_admin,
}
use twirl.Timeline.{transition}
use twirl.Notify.{notify_admin, booking_payload}

abbrev pub max_attempts : ℕ
max_attempts = 5

abbrev pub no_show_grace_days : ℕ
no_show_grace_days = 1

abbrev pub not_returned_grace_days : ℕ
not_returned_grace_days = 3

abbrev pub hour : ℕ
hour = 3600000000

-- `created_at < now - timedelta(hours=sla_hours)`
unfoldable pub is_stale : ℕ → ℕ → Booking → Bool
is_stale now sla_hours b =
    same_status b.status pending_shop && ltb (b.created_at + sla_hours * hour) now

-- `pickup_date < today - timedelta(days=no_show_grace_days)`
unfoldable pub is_missed : ℕ → Booking → Bool
is_missed today b =
    same_status b.status confirmed
    && not (is_block b.kind)
    && ltb (b.pickup_date + no_show_grace_days) today

unfoldable pub is_overdue : ℕ → Booking → Bool
is_overdue today b =
    same_status b.status picked_up && ltb (b.return_date + not_returned_grace_days) today

-- A loop of `transition` calls over rows that were read before it.
unfoldable pub transition_all : BookingStatus → Text → List Booking → Exec Db Error (Unit {0})
transition_all to reason [] = pure tt
transition_all to reason (b ∷ rows) =
    transition b.id to system_actor reason >> transition_all to reason rows

-- The hours of the payload are a number there, and its decimal text here.
unfoldable pub expire_all : Host → ℕ → List Booking → Exec Db Error (Unit {0})
expire_all host sla_hours [] = pure tt
expire_all host sla_hours (b ∷ rows) = do
  row ← transition b.id cancelled_by_shop system_actor (codes "no reply within SLA")
  payload ← gets (booking_payload host row)
  notify_admin request_expired_admin (payload ++ (codes "hours", show sla_hours) ∷ [])
  expire_all host sla_hours rows

unfoldable pub expire_stale_requests : Host → ℕ → ℕ → Exec Db Error ℕ
expire_stale_requests host now sla_hours = do
  rows ← gets (λ db. where_ (is_stale now sla_hours) db.bookings)
  expire_all host sla_hours rows
  pure (length rows)

unfoldable pub mark_no_shows : ℕ → Exec Db Error ℕ
mark_no_shows today = do
  rows ← gets (λ db. where_ (is_missed today) db.bookings)
  transition_all no_show (codes "pickup date passed") rows
  pure (length rows)

unfoldable pub mark_not_returned : ℕ → Exec Db Error ℕ
mark_not_returned today = do
  rows ← gets (λ db. where_ (is_overdue today) db.bookings)
  transition_all not_returned (codes "return overdue") rows
  pure (length rows)

-- What rendering and sending a notification came to: the provider's id, or the text of the exception.
pub data Outcome : Type 0 where
  delivered : Option Text → Outcome
  refused : Text → Outcome

-- One round of the loop, on the row; `at` is clock.now().
unfoldable pub deliver_one : Outcome → ℕ → Notification → Notification
deliver_one (delivered provider_id) at row = record row {
  attempts = row.attempts + 1;
  provider_id = provider_id;
  status = sent;
  sent_at = some at;
}
deliver_one (refused message) at row = record row {
  attempts = row.attempts + 1;
  last_error = take 1000 message;
  status = if leb max_attempts (row.attempts + 1) then failed else row.status;
}

abbrev pub counts : Outcome → ℕ
counts (delivered _) = 1
counts (refused _) = 0

-- LIMIT, ORDER BY id, FOR UPDATE SKIP LOCKED: `locked` rows are another worker's.
abbrev pub due_rows : (ℕ → Bool) → ℕ → List Notification → List Notification
due_rows locked limit table = take limit (
    sort_by (λ (a b : Notification). leb a.id b.id)
      (where_ (λ (n : Notification). is_queued n.status && not (locked n.id)) table))

-- The senders are not part of the program's own code: `send` says what becomes of each row.
module _ (send : Notification → Outcome) (at : ℕ) where
  abbrev pub put_row : Notification → List Notification → List Notification
  put_row n rows = map (λ (r : Notification). if r.id == n.id then n else r) rows

  unfoldable pub deliver_rows : List Notification → List Notification → ℕ × List Notification
  deliver_rows [] table = (0, table)
  deliver_rows (r ∷ rows) table =
      let (n, table') = deliver_rows rows (put_row (deliver_one (send r) at r) table) in
      (counts (send r) + n, table')

  unfoldable pub deliver_notifications : (ℕ → Bool) → ℕ → Exec Db Error ℕ
  unfolding pure
  deliver_notifications locked limit db =
      let (n, table) = deliver_rows (due_rows locked limit db.notifications) db.notifications in
      pure n (record db { notifications = table })
