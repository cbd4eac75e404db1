-- ===== src/Server.antt =====
-- The transactions of the program, one after another: a web handler or a job commits what its operation
-- wrote, and rolls all of it back when the operation raises (web/*.py, scheduler.py, web/internal.py).
pub mod Safety
use twirl.Prelude.{ℕ, Bool, Option, none, some, List, [], ◌∷◌, Text}
use twirl.Exec.{Exec, Result, ok, err}
use twirl.Errors.{Error}
use twirl.Host.{Host}
use twirl.Model.{Db, Actor, ItemStatus, Notification}
use twirl.Session.{restore}
use twirl.Staff.{
  StaffBooking, accept, decline, cancel_by_shop, mark_picked_up, mark_no_show, mark_returned,
  cancel_block, create_block, create_staff_booking, swap_item, set_item_status,
}
use twirl.Requests.{RentalRequest, Rivals, create_request}
use twirl.Onboarding.{set_price_and_dates, publish}
use twirl.Jobs.{
  Outcome, expire_stale_requests, mark_no_shows, mark_not_returned, deliver_notifications,
}

module _ {A : Type 0} where
  abbrev pub settle : Db → Result Error A × Db → Db
  settle db (ok a, d) = d
  settle db (err e, d) = restore db d

  -- db.commit(), or db.rollback() in an `except`. What other transactions commit while a request fails is
  -- taken to follow it: it is lost here, and stands in the list as operations of its own.
  unfoldable pub transact : Exec Db Error A → Db → Db
  transact m db = settle db (m db)

pub data Op : Type 0 where
  request : Rivals → RentalRequest → (today max_attempts : ℕ) → Op
  staff_booking : StaffBooking → Op
  block_item : (item starts_on ends_on : ℕ) → Text → Actor → Op
  unblock : ℕ → Actor → Op
  accepted : ℕ → Actor → Op
  refused : ℕ → Actor → Text → Op
  cancelled : ℕ → Actor → Text → Op
  picked_up : ℕ → Actor → Op
  missed : ℕ → Actor → Op
  returned : ℕ → Actor → Bool → Text → Op
  swap : (booking item : ℕ) → Actor → Op
  item_status : ℕ → ItemStatus → Actor → ℕ → Text → Op
  priced : (style_id price_eur : ℕ) → List ℕ → Actor → ℕ → Op
  published : (shop_id style_id : ℕ) → Bool → ℕ → Op
  expire_job : (now sla_hours : ℕ) → Op
  no_show_job : ℕ → Op
  not_returned_job : ℕ → Op
  deliver_job : (Notification → Outcome) → ℕ → (ℕ → Bool) → ℕ → Op

unfoldable pub perform : Host → Op → Db → Db
perform host (request rivals req today n) = transact (create_request host rivals req today n)
perform host (staff_booking r) = transact (create_staff_booking host r)
perform host (block_item i s e r a) = transact (create_block host i s e r a)
perform host (unblock b a) = transact (cancel_block b a)
perform host (accepted b a) = transact (accept b a)
perform host (refused b a r) = transact (decline b a r)
perform host (cancelled b a r) = transact (cancel_by_shop b a r)
perform host (picked_up b a) = transact (mark_picked_up b a)
perform host (missed b a) = transact (mark_no_show b a)
perform host (returned b a fine note) = transact (mark_returned b a fine note)
perform host (swap b i a) = transact (swap_item b i a)
perform host (item_status i st a today note) = transact (set_item_status i st a today note)
perform host (priced s p days a today) = transact (set_price_and_dates host s p days a today)
perform host (published shop s agreed now) = transact (publish shop s agreed now)
perform host (expire_job now h) = transact (expire_stale_requests host now h)
perform host (no_show_job today) = transact (mark_no_shows today)
perform host (not_returned_job today) = transact (mark_not_returned today)
perform host (deliver_job send at locked limit) =
    transact (deliver_notifications send at locked limit)

unfoldable pub run : Host → List Op → Db → Db
run host [] db = db
run host (op ∷ ops) db = run host ops (perform host op db)
