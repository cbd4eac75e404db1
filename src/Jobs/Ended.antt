-- ===== src/Jobs/Ended.antt =====
-- The three jobs that end bookings whose time has passed.
use twirl.Prelude.{
  not_true, ℕ, ◌≡◌, refl, ◌⊎◌, inl, inr, Bool, true, false, List, [], ◌∷◌, Text, codes, arith,
  length, where_, In,
}
use twirl.Exec.{ok, pure, gets, ◌>>=◌}
use twirl.Host.{Host}
use twirl.Model.{
  Db, Booking, BookingStatus, system_actor, same_status, cancelled_by_shop, no_show, not_returned,
}
use twirl.Session.Rows.{Distinct, Distinct-where}
use twirl.Timeline.{can_transition, moved_to}
use twirl.Timeline.Outcome.{written}
use twirl.Notify.{enqueue, notify_admin}
use twirl.Jobs.{
  is_stale, is_missed, is_overdue, transition_all, expire_all, expire_stale_requests, mark_no_shows,
  mark_not_returned,
}
use twirl.Jobs.Sweep.{Swept, Fits, Swept-start, sweep_transition, sweep_step}

module _ (p : Booking → Bool) (to : BookingStatus) (reason : Text) (fits : Fits p to reason)
    (first : List Booking) where
  sweep_all :
      (todo : List Booking) (db : Db)
      → Distinct todo
      → Swept p to reason first todo db.bookings
      → ((transition_all to reason todo db).0 ≡ ok tt)
        × Swept p to reason first [] (transition_all to reason todo db).1.bookings
  unfolding transition_all pure ◌>>=◌
  sweep_all [] db d s = (refl, s)
  sweep_all (b ∷ todo) db d s = rw (sweep_transition p to reason fits first todo b db s) (
      sweep_all todo (written db b to system_actor reason) d.1
        (sweep_step p to reason fits first todo b db d.0 s))

-- What a job that ends the rows that pass `p` makes of the bookings: every one that passed has moved to
-- the status, no row passes any more, and the others are as they were.
pub record IsSwept (p : Booking → Bool) (to : BookingStatus) (reason : Text)
    (before after : List Booking) : Type 0 where
  pub none_left : (c : Booking) → In c after → p c ≡ false
  pub moved : (c : Booking) → In c before → p c ≡ true → In (moved_to c to reason) after
  pub kept : (c : Booking) → In c before → p c ≡ false → In c after

no_more : {A : Type 0} (c : Booking) → In c [] ⊎ A → A
no_more c (inl i) = elim i [ ]
no_more c (inr a) = a

IsSwept-of :
    (p : Booking → Bool) (to : BookingStatus) (reason : Text) (before after : List Booking)
    → Swept p to reason before [] after
    → IsSwept p to reason before after
IsSwept-of p to reason before after s = record {
  none_left = λ c i. not_true (p c) (λ t. elim (s.rest c i t) [ ]);
  moved = λ c i t. no_more c (s.moved c i t);
  kept = s.kept;
}

no_shows-Fits : (today : ℕ) → Fits (is_missed today) no_show (codes "pickup date passed")
unfolding is_missed can_transition same_status
no_shows-Fits today = record {
  lawful = λ c h. ground arith;
  inactive = refl;
  ended = λ c. ground arith;
}

not_returned-Fits : (today : ℕ) → Fits (is_overdue today) not_returned (codes "return overdue")
unfolding is_overdue can_transition same_status
not_returned-Fits today = record {
  lawful = λ c h. ground arith;
  inactive = refl;
  ended = λ c. ground arith;
}

stale-Fits :
    (now hours : ℕ) → Fits (is_stale now hours) cancelled_by_shop (codes "no reply within SLA")
unfolding is_stale can_transition same_status
stale-Fits now hours = record {
  lawful = λ c h. ground arith;
  inactive = refl;
  ended = λ c. ground arith;
}

-- On bookings with distinct keys, the job for no-shows raises nothing and returns how many confirmed
-- rentals were to be picked up before yesterday; each of them is now a no-show, none is left, and the
-- other bookings are as they were.
pub mark_no_shows-IsSwept :
    (today : ℕ) (db : Db)
    → Distinct db.bookings
    → ((mark_no_shows today db).0 ≡ ok (length (where_ (is_missed today) db.bookings)))
      × IsSwept
          (is_missed today)
          no_show
          (codes "pickup date passed")
          db.bookings
          (mark_no_shows today db).1.bookings
unfolding mark_no_shows gets pure ◌>>=◌
mark_no_shows-IsSwept today db d =
    let rows = where_ (is_missed today) db.bookings in
    let (e, s) =
      sweep_all (is_missed today) no_show (codes "pickup date passed") (no_shows-Fits today)
        db.bookings rows db (Distinct-where (is_missed today) db.bookings d)
        (Swept-start (is_missed today) no_show (codes "pickup date passed") db.bookings d) in
    rw e (refl, IsSwept-of _ _ _ _ _ s)

-- On bookings with distinct keys, the job for overdue returns raises nothing and returns how many
-- picked-up bookings were due back more than three days ago; each of them is now not returned, none is
-- left, and the other bookings are as they were.
pub mark_not_returned-IsSwept :
    (today : ℕ) (db : Db)
    → Distinct db.bookings
    → ((mark_not_returned today db).0 ≡ ok (length (where_ (is_overdue today) db.bookings)))
      × IsSwept
          (is_overdue today)
          not_returned
          (codes "return overdue")
          db.bookings
          (mark_not_returned today db).1.bookings
unfolding mark_not_returned gets pure ◌>>=◌
mark_not_returned-IsSwept today db d =
    let rows = where_ (is_overdue today) db.bookings in
    let (e, s) =
      sweep_all (is_overdue today) not_returned (codes "return overdue") (not_returned-Fits today)
        db.bookings rows db (Distinct-where (is_overdue today) db.bookings d)
        (Swept-start (is_overdue today) not_returned (codes "return overdue") db.bookings d) in
    rw e (refl, IsSwept-of _ _ _ _ _ s)

module _ (host : Host) (now hours : ℕ) (first : List Booking) where
  expire_sweep :
      (todo : List Booking) (db : Db)
      → Distinct todo
      → Swept
          (is_stale now hours)
          cancelled_by_shop
          (codes "no reply within SLA")
          first
          todo
          db.bookings
      → ((expire_all host hours todo db).0 ≡ ok tt)
        × Swept
            (is_stale now hours)
            cancelled_by_shop
            (codes "no reply within SLA")
            first
            []
            (expire_all host hours todo db).1.bookings
  unfolding expire_all notify_admin enqueue gets pure ◌>>=◌
  expire_sweep [] db d s = (refl, s)
  expire_sweep (b ∷ todo) db d s =
      rw (sweep_transition _ _ _ (stale-Fits now hours) first todo b db s)
        (expire_sweep todo _ d.1 (sweep_step _ _ _ (stale-Fits now hours) first todo b db d.0 s))

-- On bookings with distinct keys, the job for stale requests raises nothing and returns how many requests
-- had waited longer than the hours given; each of them is now cancelled by the shop, none is left, and the
-- other bookings are as they were.
pub expire_stale_requests-IsSwept :
    (host : Host) (now hours : ℕ) (db : Db)
    → Distinct db.bookings
    → ((expire_stale_requests host now hours db).0
        ≡ ok (length (where_ (is_stale now hours) db.bookings)))
      × IsSwept
          (is_stale now hours)
          cancelled_by_shop
          (codes "no reply within SLA")
          db.bookings
          (expire_stale_requests host now hours db).1.bookings
unfolding expire_stale_requests gets pure ◌>>=◌
expire_stale_requests-IsSwept host now hours db d =
    let rows = where_ (is_stale now hours) db.bookings in
    let (e, s) =
      expire_sweep host now hours db.bookings rows db
        (Distinct-where (is_stale now hours) db.bookings d)
        (Swept-start (is_stale now hours) cancelled_by_shop (codes "no reply within SLA")
          db.bookings d) in
    rw e (refl, IsSwept-of _ _ _ _ _ s)
