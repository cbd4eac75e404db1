-- ===== src/Staff/Displaced.antt =====
-- booking/staff.py: what an override does to one booking in its way.
use twirl.Prelude.{ℕ, ◌≡◌, refl, true, false, Text, arith, In, &&-right}
use twirl.Exec.{Result, ok, pure, gets, ◌>>=◌}
use twirl.Errors.{Error}
use twirl.Host.{Host}
use twirl.Model.{
  Db, Booking, BookingStatus, Actor, hold, pending_shop, confirmed, at_risk, picked_up, completed,
  cancelled_by_renter, cancelled_by_shop, expired, no_show, not_returned, declined, is_active,
  is_online, same_status,
}
use twirl.Session.{replace_row}
use twirl.Session.Rows.{Distinct, find-Distinct}
use twirl.Timeline.{can_transition, moved_to, transition}
use twirl.Timeline.Outcome.{written, transition_outcome, violates-inactive}
use twirl.Notify.{enqueue, notify_admin}
use twirl.Availability.{is_in_way}
use twirl.Staff.Walkin.{
  is_overridable, can_displace, taken_in_store, put_at_risk, displace_as, displace,
}

-- Where a displaced booking goes.
abbrev pub displaced_status : BookingStatus → BookingStatus
displaced_status pending_shop = declined
displaced_status _ = at_risk

abbrev pub displaced : Text → Booking → Booking
displaced reason c = moved_to c (displaced_status c.status) (taken_in_store reason)

transition_clear :
    (c : Booking) (to : BookingStatus) (actor : Actor) (reason : Text) (db : Db)
    → Distinct db.bookings
    → In c db.bookings
    → can_transition c.status to ≡ true
    → is_active to ≡ false
    → transition c.id to actor reason db ≡ (ok (moved_to c to reason), written db c to actor reason)
transition_clear c to actor reason db keys i may inactive =
    let out = transition_outcome db c.id c to actor reason (find-Distinct c db.bookings keys i) in
    let clear = violates-inactive (moved_to c to reason) db.bookings inactive in
    rw clear at (rw may at out)

-- The effect of displacing one booking on the table.
abbrev pub Displaces : Text → Booking → Db → Result Error (Unit {0}) × Db → Type 0
Displaces reason c db (r, d) =
    (r ≡ ok tt) × (d.bookings ≡ replace_row (displaced reason c) db.bookings)

module _ (host : Host) (actor : Actor) (reason : Text) (c : Booking) (db : Db)
    (keys : Distinct db.bookings) (i : In c db.bookings) where
  displace_pending :
      c.status ≡ pending_shop
      → Displaces reason c db (displace_as host actor reason c pending_shop db)
  unfolding displace_as pure ◌>>=◌ can_transition same_status
  displace_pending e =
      rw (transition_clear c declined actor (taken_in_store reason) db keys i (rw e refl) refl)
        (refl, rw e refl)

  displace_confirmed :
      c.status ≡ confirmed → Displaces reason c db (displace_as host actor reason c confirmed db)
  unfolding displace_as put_at_risk notify_admin enqueue gets pure ◌>>=◌ can_transition same_status
  displace_confirmed e =
      rw (transition_clear c at_risk actor (taken_in_store reason) db keys i (rw e refl) refl)
        (refl, rw e refl)

  displace_by_status :
      (s : BookingStatus)
      → c.status ≡ s
      → is_overridable s ≡ true
      → Displaces reason c db (displace_as host actor reason c s db)
  displace_by_status pending_shop e t = displace_pending e
  displace_by_status confirmed e t = displace_confirmed e
  displace_by_status _ e t = cc

  pub displace_one : can_displace c ≡ true → Displaces reason c db (displace host actor reason c db)
  unfolding displace
  displace_one t =
      displace_by_status c.status refl (&&-right (is_online c.kind) (is_overridable c.status) t)

pub displaced-inactive :
    (reason : Text) (c : Booking) → is_active (displaced reason c).status ≡ false
displaced-inactive reason c = by_status c.status
  where
    by_status : (s : BookingStatus) → is_active (displaced_status s) ≡ false
    by_status pending_shop = refl
    by_status hold = refl
    by_status confirmed = refl
    by_status at_risk = refl
    by_status picked_up = refl
    by_status completed = refl
    by_status cancelled_by_renter = refl
    by_status cancelled_by_shop = refl
    by_status expired = refl
    by_status no_show = refl
    by_status not_returned = refl
    by_status declined = refl

pub not_in_way :
    (item_id start end : ℕ) (c : Booking)
    → is_active c.status ≡ false
    → is_in_way item_id start end c ≡ false
unfolding is_in_way
not_in_way item_id start end c h = ground arith
