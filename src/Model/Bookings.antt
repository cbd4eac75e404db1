-- ===== src/Model/Bookings.antt =====
-- models/bookings.py
use twirl.Prelude.{
  ℕ, ◌+◌, ◌-◌, ◌≡◌, ==-refl, Bool, true, false, ◌&&◌, Option, none, Text, codes, ltb, ◌==◌, arith,
}

pub data BookingKind : Type 0 where
  online walk_in phone block : BookingKind

pub data BookingStatus : Type 0 where
  hold pending_shop confirmed at_risk picked_up completed : BookingStatus
  cancelled_by_renter cancelled_by_shop expired no_show not_returned declined : BookingStatus

pub data ActorKind : Type 0 where
  renter shop admin system : ActorKind

pub data ConditionKind : Type 0 where
  intake returned_ok returned_issue status_change : ConditionKind

-- booking/actor.py
pub record Actor : Type 0 where
  pub kind : ActorKind
  pub id : Option ℕ

abbrev pub system_actor : Actor
system_actor = record { kind = system; id = none }

-- Statuses are compared by their place in the enumeration.
abbrev index : BookingStatus → ℕ
index hold = 0
index pending_shop = 1
index confirmed = 2
index at_risk = 3
index picked_up = 4
index completed = 5
index cancelled_by_renter = 6
index cancelled_by_shop = 7
index expired = 8
index no_show = 9
index not_returned = 10
index declined = 11

-- `a == b`
unfoldable pub same_status : BookingStatus → BookingStatus → Bool
same_status a b = index a == index b

pub eq_of_same_status : (a b : BookingStatus) → same_status a b ≡ true → a ≡ b
unfolding same_status
eq_of_same_status a b h = ground arith

pub same_status_refl : (a : BookingStatus) → same_status a a ≡ true
unfolding same_status
same_status_refl a = ==-refl (index a)

-- `BookingStatus(...).value`
abbrev pub status_value : BookingStatus → Text
status_value hold = codes "hold"
status_value pending_shop = codes "pending_shop"
status_value confirmed = codes "confirmed"
status_value at_risk = codes "at_risk"
status_value picked_up = codes "picked_up"
status_value completed = codes "completed"
status_value cancelled_by_renter = codes "cancelled_by_renter"
status_value cancelled_by_shop = codes "cancelled_by_shop"
status_value expired = codes "expired"
status_value no_show = codes "no_show"
status_value not_returned = codes "not_returned"
status_value declined = codes "declined"

-- `status in ACTIVE_STATUSES`
abbrev pub is_active : BookingStatus → Bool
is_active hold = true
is_active pending_shop = true
is_active confirmed = true
is_active picked_up = true
is_active _ = false

-- `kind == BookingKind.BLOCK.value`
abbrev pub is_block : BookingKind → Bool
is_block block = true
is_block _ = false

-- `kind == BookingKind.ONLINE.value`
abbrev pub is_online : BookingKind → Bool
is_online online = true
is_online _ = false

pub record Booking : Type 0 where
  pub id : ℕ
  pub ref : Text
  pub shop_id : ℕ
  pub item_id : ℕ
  pub style_id : ℕ
  pub customer_id : Option ℕ
  pub kind : BookingKind
  pub status : BookingStatus
  pub event_date : Option ℕ
  pub pickup_date : ℕ
  pub return_date : ℕ
  pub prep_days : ℕ
  pub cleaning_days : ℕ
  pub expires_at : Option ℕ
  pub source_channel : Option Text
  pub fee_cents : ℕ
  pub price_cents : ℕ
  pub customer_note : Text
  pub staff_note : Text
  pub reason : Text
  pub created_by : Option ℕ
  pub created_at : ℕ

pub record BookingEvent : Type 0 where
  pub booking_id : ℕ
  pub from_status : Option BookingStatus
  pub to_status : BookingStatus
  pub actor_id : Option ℕ
  pub actor_kind : ActorKind
  pub reason : Text

pub record ItemConditionEvent : Type 0 where
  pub item_id : ℕ
  pub booking_id : Option ℕ
  pub kind : ConditionKind
  pub note : Text
  pub created_by : Option ℕ

-- A `daterange` of Postgres in its canonical form, `lower` in it and `upper` not, over Julian day
-- numbers: the first date that Postgres has is day 0, and the first one of Python's is 1721426.
pub record DateRange : Type 0 where
  pub lower : ℕ
  pub upper : ℕ

abbrev pub julian : ℕ → ℕ
julian ordinal = ordinal + 1721425

-- The computed column: daterange(pickup_date - prep_days, return_date + cleaning_days, '[]').
abbrev pub blocked_column : Booking → DateRange
blocked_column b = record {
  lower = julian b.pickup_date - b.prep_days;
  upper = julian b.return_date + b.cleaning_days + 1;
}

-- `&&` on two ranges that are not empty
abbrev pub overlaps : DateRange → DateRange → Bool
overlaps r s = ltb r.lower s.upper && ltb s.lower r.upper

-- The exclusion constraint ex_bookings_item_overlap: two rows that may not both stand.
unfoldable pub excludes : Booking → Booking → Bool
excludes a b =
    is_active a.status
    && is_active b.status
    && a.item_id == b.item_id
    && overlaps (blocked_column a) (blocked_column b)

pub excludes_comm : (a b : Booking) → excludes a b ≡ true → excludes b a ≡ true
unfolding excludes
excludes_comm a b h = ground arith
