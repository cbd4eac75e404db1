-- ===== src/Jobs/Sweep.antt =====
-- jobs.py: the loop of a job over the rows that it read.
use twirl.Prelude.{
  ◌≡◌, ◌≢◌, refl, ◌⊎◌, inl, inr, Bool, true, false, List, ◌∷◌, Text, where_, In, In-where, where-In,
}
use twirl.Exec.{ok}
use twirl.Model.{Db, Booking, BookingStatus, system_actor, is_active}
use twirl.Session.{replace_row}
use twirl.Session.Rows.{
  Distinct, In-replace_row, replace_row-In, replace_row-hit, find-Distinct, same_row,
  Distinct-replace_row,
}
use twirl.Timeline.{can_transition, moved_to, transition}
use twirl.Timeline.Outcome.{written, transition_outcome, violates-inactive}

module _ (p : Booking → Bool) (to : BookingStatus) (reason : Text) where
  -- The rows in the middle of the sweep: `first` were read, and `todo` are left of those that pass.
  pub record Swept (first todo rows : List Booking) : Type 0 where
    pub keys : Distinct rows
    pub due : (c : Booking) → In c todo → In c rows × (p c ≡ true)
    pub rest : (c : Booking) → In c rows → p c ≡ true → In c todo
    -- the others are as they were, and those that passed are still to do or have been moved
    pub kept : (c : Booking) → In c first → p c ≡ false → In c rows
    pub moved : (c : Booking) → In c first → p c ≡ true → In c todo ⊎ In (moved_to c to reason) rows

  -- What makes a test and a status fit: every row that passes may move there, and no longer passes.
  pub record Fits : Type 0 where
    pub lawful : (c : Booking) → p c ≡ true → can_transition c.status to ≡ true
    pub inactive : is_active to ≡ false
    pub ended : (c : Booking) → p (moved_to c to reason) ≡ false

  pub Swept-start : (rows : List Booking) → Distinct rows → Swept rows (where_ p rows) rows
  Swept-start rows d = record {
    keys = d;
    due = λ c i. In-where p c rows i;
    rest = λ c i t. where-In p c rows i t;
    kept = λ c i f. i;
    moved = λ c i t. inl (where-In p c rows i t);
  }

  module _ (fits : Fits) (first todo : List Booking) (b : Booking) (db : Db) where
    -- The transition of a row that passes succeeds.
    pub sweep_transition :
        Swept first (b ∷ todo) db.bookings
        → transition b.id to system_actor reason db
          ≡ (ok (moved_to b to reason), written db b to system_actor reason)
    sweep_transition s =
        let (i, t) = s.due b (inl refl) in
        let out =
          transition_outcome db b.id b to system_actor reason
            (find-Distinct b db.bookings s.keys i) in
        let may = fits.lawful b t in
        let clear = violates-inactive (moved_to b to reason) db.bookings fits.inactive in
        rw clear at (rw may at out)

    pub sweep_step :
        ((c : Booking) → In c todo → c.id ≢ b.id)
        → Swept first (b ∷ todo) db.bookings
        → Swept first todo (replace_row (moved_to b to reason) db.bookings)
    sweep_step others s = record {
      keys = Distinct-replace_row (moved_to b to reason) db.bookings s.keys;
      due = λ c i.
          let (j, t) = s.due c (inr i) in
          (replace_row-In (moved_to b to reason) c db.bookings j (others c i), t);
      rest = λ c i t. elim (In-replace_row (moved_to b to reason) c db.bookings i) [
        | inl e ↦ absurd (cc (fits.ended b))
        | inr (j, ne) ↦ elim (s.rest c j t) [ inl e ↦ absurd (ne (cc)) | inr k ↦ k ]
      ];
      kept = λ c i f.
          replace_row-In (moved_to b to reason) c db.bookings (s.kept c i f)
            (λ e. other_row c i f e);
      moved = λ c i t. moved_on c i t;
    }
      where
        other_row : (c : Booking) → In c first → p c ≡ false → c.id ≡ b.id → ⊥
        other_row c i f e = cc (
          same_row c b db.bookings s.keys (s.kept c i f) (s.due b (inl refl)).0 e,
          (s.due b (inl refl)).1,
        )

        not_again : (c : Booking) → In (moved_to c to reason) db.bookings → c.id ≡ b.id → ⊥
        not_again c j e =
            let same =
              same_row (moved_to c to reason) b db.bookings s.keys j (s.due b (inl refl)).0 e in
            cc (fits.ended c, (s.due b (inl refl)).1, same)

        moved_on :
            (c : Booking)
            → In c first
            → p c ≡ true
            → In c todo ⊎ In (moved_to c to reason) (replace_row (moved_to b to reason) db.bookings)
        moved_on c i t = elim (s.moved c i t) [
          | inl (inl e) ↦ inr (
              rw e
                (replace_row-hit (moved_to b to reason) b db.bookings refl (s.due b (inl refl)).0))
          | inl (inr j) ↦ inl j
          | inr j ↦ inr (
              replace_row-In (moved_to b to reason) (moved_to c to reason) db.bookings j
                (λ e. not_again c j e))
        ]
