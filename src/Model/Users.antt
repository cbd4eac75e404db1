-- ===== src/Model/Users.antt =====
-- models/users.py and models/notifications.py
use twirl.Prelude.{ℕ, Bool, true, false, Option, List, Text}

pub data UserKind : Type 0 where
  renter shop admin : UserKind

pub record User : Type 0 where
  pub id : ℕ
  pub kind : UserKind
  pub name : Text
  pub phone : Option Text
  pub email : Option Text
  pub password_hash : Option Text
  pub locale : Text
  pub blocked_at : Option ℕ
  pub phone_verified_at : Option ℕ

pub data Channel : Type 0 where
  email telegram : Channel

pub data NotificationStatus : Type 0 where
  queued sent failed : NotificationStatus

-- The keys of `TEMPLATES` in notify/templates.py: `enqueue` refuses any other name.
pub data Template : Type 0 where
  new_request_shop new_request_admin booking_at_risk_admin : Template
  request_expired_admin provider_published_admin provider_signed_up_admin : Template

-- A payload is a `dict` with texts for keys and values.
abbrev pub Payload : Type 0
Payload = List (Text × Text)

pub record Notification : Type 0 where
  pub id : ℕ
  pub channel : Channel
  pub recipient : Text
  pub template : Template
  pub payload : Payload
  pub status : NotificationStatus
  pub attempts : ℕ
  pub last_error : Text
  pub provider_id : Option Text
  pub sent_at : Option ℕ

-- `status == NotificationStatus.QUEUED.value`
abbrev pub is_queued : NotificationStatus → Bool
is_queued queued = true
is_queued _ = false
