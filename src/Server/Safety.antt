-- ===== src/Server/Safety.antt =====
-- "Never double-book a physical dress": the rule of the program, over histories of transactions.
use twirl.Prelude.{
  ℕ, ◌≡◌, sym, Bool, true, false, not, ◌&&◌, List, [], ◌∷◌, arith, ◌==◌, In, all, all-true,
  any-false, ==-ne,
}
use twirl.Exec.{Exec, Result, ok, err}
use twirl.Exec.Keeps.{Keeps}
use twirl.Errors.{Error}
use twirl.Host.{Host}
use twirl.Model.{Db, Booking, excludes}
use twirl.Session.{violates}
use twirl.Server.{Op, request, settle, transact, perform, run}
use twirl.Exclusion.Holders.{holders, one_holder}
use twirl.Exclusion.Writes.{IsExclusive, restore-IsExclusive}
use twirl.Exclusion.Staff.{
  accept-IsExclusive, decline-IsExclusive, cancel_by_shop-IsExclusive, mark_picked_up-IsExclusive,
  mark_no_show-IsExclusive, mark_returned-IsExclusive, cancel_block-IsExclusive,
  create_block-IsExclusive, set_item_status-IsExclusive, swap_item-IsExclusive,
}
use twirl.Exclusion.Walkin.{create_staff_booking-IsExclusive}
use twirl.Onboarding.Blocks.{set_price_and_dates-IsExclusive, publish-IsExclusive}
use twirl.Exclusion.Requests.{
  AreLawful, create_request-IsExclusive, expire_stale_requests-IsExclusive,
  mark_no_shows-IsExclusive, mark_not_returned-IsExclusive, deliver_notifications-IsExclusive,
}

-- The rivals of a request keep the constraint.
abbrev pub IsLawful : Op → Type 0
IsLawful (request rivals req today n) = AreLawful rivals
IsLawful _ = Unit

abbrev pub AllLawful : List Op → Type 0
AllLawful [] = Unit
AllLawful (op ∷ ops) = IsLawful op × AllLawful ops

settle-IsExclusive :
    {A : Type 0} (db : Db) (r : Result Error A) (d : Db)
    → IsExclusive db
    → IsExclusive d
    → IsExclusive (settle db (r, d))
settle-IsExclusive db (ok a) d h k = k
settle-IsExclusive db (err e) d h k = restore-IsExclusive db d h

transact-IsExclusive :
    {A : Type 0} (m : Exec Db Error A) (db : Db)
    → Keeps IsExclusive m
    → IsExclusive db
    → IsExclusive (transact m db)
unfolding transact
transact-IsExclusive m db k h = settle-IsExclusive db (m db).0 (m db).1 h (k.run db h)

perform-IsExclusive :
    (host : Host) (op : Op) (db : Db)
    → IsLawful op
    → IsExclusive db
    → IsExclusive (perform host op db)
unfolding perform
perform-IsExclusive host (request rivals req today n) db l h =
    transact-IsExclusive _ db (create_request-IsExclusive host rivals req l today n) h
perform-IsExclusive host (Op.staff_booking r) db l h =
    transact-IsExclusive _ db (create_staff_booking-IsExclusive host r) h
perform-IsExclusive host (Op.block_item i s e r a) db l h =
    transact-IsExclusive _ db (create_block-IsExclusive host i s e r a) h
perform-IsExclusive host (Op.unblock b a) db l h =
    transact-IsExclusive _ db (cancel_block-IsExclusive b a) h
perform-IsExclusive host (Op.accepted b a) db l h =
    transact-IsExclusive _ db (accept-IsExclusive b a) h
perform-IsExclusive host (Op.refused b a r) db l h =
    transact-IsExclusive _ db (decline-IsExclusive b a r) h
perform-IsExclusive host (Op.cancelled b a r) db l h =
    transact-IsExclusive _ db (cancel_by_shop-IsExclusive b a r) h
perform-IsExclusive host (Op.picked_up b a) db l h =
    transact-IsExclusive _ db (mark_picked_up-IsExclusive b a) h
perform-IsExclusive host (Op.missed b a) db l h =
    transact-IsExclusive _ db (mark_no_show-IsExclusive b a) h
perform-IsExclusive host (Op.returned b a f n) db l h =
    transact-IsExclusive _ db (mark_returned-IsExclusive b a f n) h
perform-IsExclusive host (Op.swap b i a) db l h =
    transact-IsExclusive _ db (swap_item-IsExclusive b i a) h
perform-IsExclusive host (Op.item_status i st a t n) db l h =
    transact-IsExclusive _ db (set_item_status-IsExclusive i st a t n) h
perform-IsExclusive host (Op.priced s p days a today) db l h =
    transact-IsExclusive _ db (set_price_and_dates-IsExclusive host s p days a today) h
perform-IsExclusive host (Op.published shop s agreed now) db l h =
    transact-IsExclusive _ db (publish-IsExclusive shop s agreed now) h
perform-IsExclusive host (Op.expire_job now s) db l h =
    transact-IsExclusive _ db (expire_stale_requests-IsExclusive host now s) h
perform-IsExclusive host (Op.no_show_job t) db l h =
    transact-IsExclusive _ db (mark_no_shows-IsExclusive t) h
perform-IsExclusive host (Op.not_returned_job t) db l h =
    transact-IsExclusive _ db (mark_not_returned-IsExclusive t) h
perform-IsExclusive host (Op.deliver_job send at locked limit) db l h =
    transact-IsExclusive _ db (deliver_notifications-IsExclusive send at locked limit) h

pub run-IsExclusive :
    (host : Host) (ops : List Op) (db : Db)
    → AllLawful ops
    → IsExclusive db
    → IsExclusive (run host ops db)
unfolding run
run-IsExclusive host [] db l h = h
run-IsExclusive host (op ∷ ops) db l h =
    run-IsExclusive host ops (perform host op db) l.1 (perform-IsExclusive host op db l.0 h)

-- Whatever transactions run, in whatever order, on a database in which no two active bookings of an item
-- overlap: no item is held by two bookings on one day. The only hypothesis on what others commit beside
-- a request is that they keep the database so.
pub never_double_booked :
    (host : Host) (ops : List Op) (db : Db) (item_id day : ℕ) (b c : Booking)
    → AllLawful ops
    → IsExclusive db
    → In b (holders item_id day (run host ops db))
    → In c (holders item_id day (run host ops db))
    → b.id ≡ c.id
never_double_booked host ops db item_id day b c l h =
    one_holder item_id day (run host ops db) b c (run-IsExclusive host ops db l h)

-- A table that passes this test is exclusive.
abbrev pub all_apart : List Booking → Bool
all_apart rows = all (λ b. not (violates b rows)) rows

not-eq_true : (b : Bool) → not b ≡ true → b ≡ false
not-eq_true b h = ground arith

pub IsExclusive-of_test : (db : Db) → all_apart db.bookings ≡ true → IsExclusive db
IsExclusive-of_test db t = record {
  apart = λ b c ib ic ne.
      let v =
        not-eq_true (violates b db.bookings)
          (all-true (λ (x : Booking). not (violates x db.bookings)) b db.bookings t ib) in
      ground (
        arith,
        ==-ne c.id b.id (λ e. ne (sym e)),
        any-false (λ (x : Booking). not (x.id == b.id) && excludes b x) c db.bookings v ic,
      );
}
