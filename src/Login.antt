-- ===== src/Login.antt =====
-- web/auth.py: the forms of the login. The e-mail form checks a password, the other sends a code by SMS.
pub mod Entered
use twirl.Prelude.{
  ℕ, Bool, true, false, not, ◌&&◌, Option, none, some, List, [], Text, strip, text_eq, is_empty,
  find, any, codes, ◌==◌, if◌then◌else◌,
}
use twirl.Exec.{Result, ok, err}
use twirl.Errors.{Error}
use twirl.Host.{normalize_phone}
use twirl.Model.{Db, User, ShopUser}
use twirl.Otp.{OtpError, PhoneCodes, login, issue_code, verify_code}
use twirl.RateLimit.{RateLimiter, allow}
use twirl.Home.{safe_next}
use twirl.Wizard.Forms.{Process, is_too_many}

-- What the handlers take from the process besides: `str.lower`, and argon2.
pub record LoginProcess : Type 0 where
  pub process : Process
  pub lower : Text → Text
  pub verify_password : Text → Text → Bool

-- the keys of the session: `uid`, `login_phone`, `login_next`
pub record LoginSession : Type 0 where
  pub user_id : Option ℕ
  pub login_phone : Option Text
  pub login_next : Option Text

-- The session of a browser, the limiter of logins, the codes and the tables.
pub record Door : Type 0 where
  pub session : LoginSession
  pub limiter : RateLimiter
  pub phone_codes : PhoneCodes
  pub db : Db

pub data LoginReply : Type 0 where
  leads_to : Text → LoginReply
  phone_form code_form limited refused bad_number codes_used_up : LoginReply

abbrev pub shop_path : Text
shop_path = codes "/shop"

-- `login_user`: the session is cleared and holds the user
abbrev pub session_of : User → LoginSession
session_of user = record { user_id = some user.id; login_phone = none; login_next = none }

-- `logout_user`
abbrev pub no_session : LoginSession
no_session = record { user_id = none; login_phone = none; login_next = none }

abbrev pub has_email : Text → Option Text → Bool
has_email email none = false
has_email email (some e) = text_eq e email

abbrev pub is_blocked : User → Bool
is_blocked user = elim user.blocked_at [ none ↦ false | some t ↦ true ]

abbrev pub password_matches : LoginProcess → Text → Option Text → Bool
password_matches p password none = false
password_matches p password (some hash) = p.verify_password hash password

abbrev pub entered_by : User → Text → Door → LoginReply × Door
entered_by user target door = (leads_to target, record door { session = session_of user })

abbrev pub check_password : LoginProcess → Text → Text → Option User → Door → LoginReply × Door
check_password p password target none door = (refused, door)
check_password p password target (some user) door =
    if not (is_blocked user) && password_matches p password user.password_hash
    then entered_by user target door
    else (refused, door)

abbrev pub user_of_email : LoginProcess → Text → Db → Option User
user_of_email p email db = find (λ (u : User). has_email (p.lower (strip email)) u.email) db.users

-- `_limited`, and the rest of the handler where it says no
abbrev pub unless_limited :
    Bool × RateLimiter → Door → (Door → LoginReply × Door) → LoginReply × Door
unless_limited (false, l) door k = (limited, record door { limiter = l })
unless_limited (true, l) door k = k (record door { limiter = l })

-- `login`
abbrev pub email_login :
    LoginProcess → (ip email password : Text) → (next : Option Text) → Door → LoginReply × Door
email_login p ip email password next door =
    unless_limited (allow door.limiter ip p.process.now) door
      (check_password p password (safe_next next shop_path) (user_of_email p email door.db))

-- `_provider_by_phone`
abbrev pub provider_by_phone : Text → Db → Option User
provider_by_phone number db =
    find
      (λ (u : User).
        any (λ (l : ShopUser). l.user_id == u.id) db.shop_users
        && has_email number u.phone
        && not (is_blocked u))
      db.users

-- `send_code(request, db, phone, "login")`
abbrev pub send_login_code : Process → Text → PhoneCodes → Result OtpError Text × PhoneCodes
send_login_code p number t = issue_code p.mac p.secret number login p.now p.drawn t

abbrev pub after_sending : Result OtpError Text × PhoneCodes → Door → LoginReply × Door
after_sending (r, t) door =
    if is_too_many r then (codes_used_up, door) else (code_form, record door { phone_codes = t })

abbrev pub send_to_provider : LoginProcess → Text → Option User → Door → LoginReply × Door
send_to_provider p number none door = (code_form, door)
send_to_provider p number (some user) door =
    after_sending (send_login_code p.process number door.phone_codes) door

abbrev pub remember_phone : Text → Door → Door
remember_phone number door = record door {
  session = record door.session { login_phone = some number };
}

abbrev pub with_number : LoginProcess → Result Error Text → Door → LoginReply × Door
with_number p (err e) door = (bad_number, door)
with_number p (ok number) door =
    send_to_provider p number (provider_by_phone number door.db) (remember_phone number door)

abbrev pub phone_login : LoginProcess → (ip number : Text) → Door → LoginReply × Door
phone_login p ip number door =
    unless_limited (allow door.limiter ip p.process.now) door
      (with_number p (normalize_phone p.process.host number))

abbrev pub resend_login : LoginProcess → Option Text → Door → Door
resend_login p none door = door
resend_login p (some number) door =
    let (r, d) = send_to_provider p number (provider_by_phone number door.db) door in
    if is_empty number then door else d

abbrev pub phone_code_resend : LoginProcess → Door → LoginReply × Door
phone_code_resend p door = (code_form, resend_login p door.session.login_phone door)

abbrev pub after_code : Bool → Option User → PhoneCodes → Door → LoginReply × Door
after_code true (some user) t door =
    entered_by user (safe_next door.session.login_next shop_path) (record door { phone_codes = t })
after_code _ _ t door = (refused, record door { phone_codes = t })

abbrev pub check_code : LoginProcess → Text → Text → Door → LoginReply × Door
check_code p number typed door =
    let (right, t) =
      verify_code p.process.mac p.process.secret number login typed p.process.now
        door.phone_codes in
    after_code right (provider_by_phone number door.db) t door

abbrev pub code_for : LoginProcess → (ip typed : Text) → Option Text → Door → LoginReply × Door
code_for p ip typed none door = (phone_form, door)
code_for p ip typed (some number) door =
    if is_empty number
    then (phone_form, door)
    else unless_limited (allow door.limiter ip p.process.now) door (check_code p number typed)

abbrev pub phone_code_login : LoginProcess → (ip typed : Text) → Door → LoginReply × Door
phone_code_login p ip typed door = code_for p ip typed door.session.login_phone door

abbrev pub remember_next : Option Text → LoginSession → LoginSession
remember_next none s = s
remember_next (some next) s =
    if is_empty next then s else record s { login_next = some (safe_next (some next) shop_path) }

abbrev pub phone_login_form : Option Text → Door → LoginReply × Door
phone_login_form next door = (phone_form, record door { session = remember_next next door.session })

pub data LoginRequest : Type 0 where
  with_password : (email password : Text) → (next : Option Text) → LoginRequest
  open_form : (next : Option Text) → LoginRequest
  with_phone : (number : Text) → LoginRequest
  again : LoginRequest
  with_code : (typed : Text) → LoginRequest
  leave : LoginRequest

unfoldable pub knock : LoginProcess → (ip : Text) → LoginRequest → Door → LoginReply × Door
knock p ip (with_password email password next) door = email_login p ip email password next door
knock p ip (open_form next) door = phone_login_form next door
knock p ip (with_phone number) door = phone_login p ip number door
knock p ip again door = phone_code_resend p door
knock p ip (with_code typed) door = phone_code_login p ip typed door
knock p ip leave door = (phone_form, record door { session = no_session })
