-- ===== src/Jobs/Delivery.antt =====
-- The delivery job: how often a notification is tried.
use twirl.Prelude.{
  true, ◌≢◌, any, any-witness, sym, ◌∙◌, eq_of_==, ne_of_==, ℕ, zero, suc, ◌+◌, ◌≤◌, ◌<◌, ◌≡◌, refl,
  Bool, not, ◌&&◌, List, [], ◌∷◌, arith, take, where_, leb, ◌==◌, if◌then◌else◌, inl, inr, ◌⊎◌, In,
  In-where, In-sort_by, Bool-cases, &&-left,
}
use twirl.Exec.{pure}
use twirl.Model.{Db, Notification, NotificationStatus, is_queued, queued, sent, failed}
use twirl.Jobs.{
  Outcome, delivered, refused, deliver_one, put_row, deliver_rows, due_rows, deliver_notifications,
}

-- Five attempts at most, fewer while it is queued, and all five where it was given up.
abbrev pub HasTries : NotificationStatus → ℕ → Type 0
HasTries queued n = n < 5
HasTries sent n = n ≤ 5
HasTries failed n = n ≡ 5

abbrev pub IsTried : Notification → Type 0
IsTried n = HasTries n.status n.attempts

after_success : (s : NotificationStatus) (n : ℕ) → is_queued s ≡ true → HasTries s n → n + 1 ≤ 5
after_success queued n q h = omega (arith, h)
after_success sent n q h = cc
after_success failed n q h = cc

after_refusal :
    (s : NotificationStatus) (n : ℕ)
    → is_queued s ≡ true
    → HasTries s n
    → HasTries (if leb 5 (n + 1) then failed else s) (n + 1)
after_refusal queued n q h = elim (Bool-cases (leb 5 (n + 1))) [
  | inl e ↦ rw e (ground arith)
  | inr e ↦ rw e (ground arith)
]
after_refusal sent n q h = cc
after_refusal failed n q h = cc

IsTried-deliver_one :
    (at : ℕ) (o : Outcome) (r : Notification)
    → is_queued r.status ≡ true
    → IsTried r
    → IsTried (deliver_one o at r)
unfolding deliver_one
IsTried-deliver_one at (delivered provider_id) r q h = after_success r.status r.attempts q h
IsTried-deliver_one at (refused message) r q h = after_refusal r.status r.attempts q h

In-take : {A : Type 0} (n : ℕ) (x : A) (xs : List A) → In x (take n xs) → In x xs
In-take zero x xs i = elim i [ ]
In-take (suc n) x [] i = i
In-take (suc n) x (y ∷ xs) (inl e) = inl e
In-take (suc n) x (y ∷ xs) (inr i) = inr (In-take n x xs i)

module _ (send : Notification → Outcome) (at : ℕ) where
  put_row-In :
      (n c : Notification) (rows : List Notification)
      → In c (put_row send at n rows)
      → (c ≡ n) ⊎ (In c rows × (c.id ≢ n.id))
  put_row-In n c [] i = elim i [ ]
  put_row-In n c (r ∷ rows) i = elim (Bool-cases (r.id == n.id)) [
    | inl e ↦ elim (rw e at i) [ inl q ↦ inl q | inr j ↦ deeper (put_row-In n c rows j) ]
    | inr e ↦ elim (rw e at i) [
      | inl q ↦ inr (inl q, ne_of_== c.id n.id (rw q e))
      | inr j ↦ deeper (put_row-In n c rows j)
    ]
  ]
    where
      deeper : (c ≡ n) ⊎ (In c rows × (c.id ≢ n.id)) → (c ≡ n) ⊎ (In c (r ∷ rows) × (c.id ≢ n.id))
      deeper (inl e) = inl e
      deeper (inr (j, ne)) = inr (inr j, ne)

  -- What holds of each row of the table and of each row that was tried, holds of the table afterwards.
  all_rows :
      (P : Notification → Type 0) (rows table : List Notification)
      → ((r : Notification) → In r rows → P (deliver_one (send r) at r))
      → ((c : Notification) → In c table → P c)
      → (c : Notification) → In c (deliver_rows send at rows table).1
      → P c
  unfolding deliver_rows
  all_rows P [] table hr ht c i = ht c i
  all_rows P (r ∷ rows) table hr ht c i =
      all_rows P rows (put_row send at (deliver_one (send r) at r) table) (λ x j. hr x (inr j))
        (λ x j. elim (put_row-In (deliver_one (send r) at r) x table j) [
          | inl e ↦ rw e (hr r (inl refl))
          | inr k ↦ ht x k.0
        ])
        c i

  tried_id : (o : Outcome) (r : Notification) → (deliver_one o at r).id ≡ r.id
  unfolding deliver_one
  tried_id (delivered _) r = refl
  tried_id (refused _) r = refl

  tried_count : (o : Outcome) (r : Notification) → (deliver_one o at r).attempts ≡ r.attempts + 1
  unfolding deliver_one
  tried_count (delivered _) r = refl
  tried_count (refused _) r = refl

  -- Where a row with that id was tried, every row with that id has one attempt more.
  tried_rows :
      (id k : ℕ) (rows table : List Notification)
      → ((r : Notification) → In r rows → r.id ≡ id → k ≤ r.attempts)
      → any (λ (r : Notification). r.id == id) rows ≡ true
      → (c : Notification) → In c (deliver_rows send at rows table).1
      → c.id ≡ id
      → k + 1 ≤ c.attempts
  unfolding deliver_rows
  tried_rows id k [] table hr h = cc
  tried_rows id k (r ∷ rows) table hr h =
      let n = deliver_one (send r) at r in
      elim (Bool-cases (r.id == id)) [
        | inr e ↦ tried_rows id k rows (put_row send at n table) (λ x j. hr x (inr j)) (rw e at h)
        | inl e ↦
            all_rows (λ (c : Notification). c.id ≡ id → k + 1 ≤ c.attempts) rows
              (put_row send at n table)
              (λ x j own.
                omega
                  (arith, tried_count (send x) x, hr x (inr j) (sym (tried_id (send x) x) ∙ own)))
              (λ x j own. elim (put_row-In n x table j) [
                | inl same ↦
                    rw same
                      (omega (arith, tried_count (send r) r, hr r (inl refl) (eq_of_== r.id id e)))
                | inr (old, ne) ↦ absurd (ne (own ∙ sym (tried_id (send r) r ∙ eq_of_== r.id id e)))
              ])
      ]

  due-In :
      (locked : ℕ → Bool) (limit : ℕ) (table : List Notification) (c : Notification)
      → In c (due_rows locked limit table)
      → In c table × (is_queued c.status ≡ true)
  due-In locked limit table c i =
      let free = λ (n : Notification). is_queued n.status && not (locked n.id) in
      let by_id = λ (a b : Notification). leb a.id b.id in
      let (k, t) =
        In-where free c table (In-sort_by by_id c (where_ free table) (In-take limit c _ i)) in
      (k, &&-left (is_queued c.status) (not (locked c.id)) t)

-- A run of the job: the sender, the time, the rows that another worker has, and the limit.
pub record Run : Type 0 where
  pub send : Notification → Outcome
  pub at : ℕ
  pub locked : ℕ → Bool
  pub limit : ℕ

abbrev pub after_run : Run → Db → Db
after_run r db = (deliver_notifications r.send r.at r.locked r.limit db).1

abbrev pub is_tried_in : ℕ → Run → Db → Bool
is_tried_in id r db =
    any (λ (n : Notification). n.id == id) (due_rows r.locked r.limit db.notifications)

-- In how many of the runs a notification with that id is handed to the sender.
abbrev pub tries : ℕ → List Run → Db → ℕ
tries id [] db = 0
tries id (r ∷ runs) db = (if is_tried_in id r db then 1 else 0) + tries id runs (after_run r db)

record HasHad (id k : ℕ) (db : Db) : Type 0 where
  pub few : k ≤ 5
  pub each : (c : Notification) → In c db.notifications → IsTried c
  pub counted : (c : Notification) → In c db.notifications → c.id ≡ id → k ≤ c.attempts

queued_few : (s : NotificationStatus) (n : ℕ) → is_queued s ≡ true → HasTries s n → n < 5
queued_few queued n q h = h
queued_few sent n q h = cc
queued_few failed n q h = cc

run_step :
    (id k : ℕ) (r : Run) (db : Db)
    → HasHad id k db
    → HasHad id ((if is_tried_in id r db then 1 else 0) + k) (after_run r db)
unfolding deliver_notifications pure
run_step id k r db h =
    let rows = due_rows r.locked r.limit db.notifications in
    let from : (c : Notification)
        → In c rows
        → In c db.notifications × (is_queued c.status ≡ true) =
      due-In r.send r.at r.locked r.limit db.notifications in
    let each =
      all_rows r.send r.at IsTried rows db.notifications
        (λ x j. let (i, q) = from x j in IsTried-deliver_one r.at (r.send x) x q (h.each x i))
        h.each in
    elim (Bool-cases (is_tried_in id r db)) [
      | inl e ↦ rw e (record {
        few =
            let (x, j, own) = any-witness (λ (n : Notification). n.id == id) rows e in
            let (i, q) = from x j in
            omega (
              arith,
              h.counted x i (eq_of_== x.id id own),
              queued_few x.status x.attempts q (h.each x i),
            );
        each = each;
        counted = λ c i own. omega (
          arith,
          tried_rows r.send r.at id k rows db.notifications (λ x j f. h.counted x (from x j).0 f) e
              c i own,
        );
      })
      | inr e ↦ rw e (record {
        few = omega (arith, h.few);
        each = each;
        counted = λ c i own. omega (
          arith,
          all_rows r.send r.at (λ (c : Notification). c.id ≡ id → k ≤ c.attempts) rows
              db.notifications
              (λ x j f. omega (
                arith,
                tried_count r.send r.at (r.send x) x,
                h.counted x (from x j).0 (sym (tried_id r.send r.at (r.send x) x) ∙ f),
              ))
              h.counted c i own,
        );
      })
    ]

runs_limit :
    (id : ℕ) (runs : List Run) (db : Db) (k : ℕ) → HasHad id k db → tries id runs db + k ≤ 5
runs_limit id [] db k h = omega (arith, h.few)
runs_limit id (r ∷ runs) db k h =
    omega (arith, runs_limit id runs (after_run r db) _ (run_step id k r db h))

-- Whatever the senders answer, however many runs there are and whatever other workers lock, a notification
-- is tried five times at most, where each had at most five attempts, fewer while queued and all five where
-- failed.
pub tries_limit :
    (id : ℕ) (runs : List Run) (db : Db)
    → ((c : Notification) → In c db.notifications → IsTried c)
    → tries id runs db ≤ 5
tries_limit id runs db h =
    let start : HasHad id 0 db = record {
      few = omega arith;
      each = h;
      counted = λ c i own. omega arith;
    } in
    omega (arith, runs_limit id runs db 0 start)
