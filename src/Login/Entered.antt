-- ===== src/Login/Entered.antt =====
-- web/auth.py: who is logged in.
use twirl.Prelude.{
  ap, Bool, true, false, not, ◌&&◌, Option, none, some, Text, ◌≡◌, refl, ◌⊎◌, inl, inr, Bool-cases,
  Option-cases, In, find-In, any-witness, eq_of_==, eq_of_text_eq, &&-left, &&-right, strip, any,
  is_empty, ◌==◌,
}
use twirl.Exec.{Result, ok, err}
use twirl.Errors.{Error}
use twirl.Host.{normalize_phone}
use twirl.Home.{safe_next}
use twirl.Model.{User, ShopUser}
use twirl.Otp.{OtpError, PhoneCodes, login, verify_code}
use twirl.RateLimit.{RateLimiter, allow}
use twirl.Wizard.Forms.{is_too_many}
use twirl.Login.{
  LoginProcess, LoginSession, Door, LoginReply, has_email, is_blocked, password_matches,
  check_password, user_of_email, unless_limited, provider_by_phone, after_sending, send_to_provider,
  with_number, resend_login, after_code, code_for, remember_next, remember_phone, shop_path,
  LoginRequest, with_password, open_form, with_phone, again, with_code, leave, knock,
}

-- The user has the e-mail address and the password of the form.
pub record ByPassword (p : LoginProcess) (email password : Text) (user : User) : Type 0 where
  pub address : user.email ≡ some (p.lower (strip email))
  pub kept : Text
  pub stored_hash : user.password_hash ≡ some kept
  pub right : p.verify_password kept password ≡ true

-- The user has the phone of the session, is linked to a shop, and the code was verified for that phone.
pub record ByCode (p : LoginProcess) (typed : Text) (door : Door) (user : User) : Type 0 where
  pub number : Text
  pub pending : door.session.login_phone ≡ some number
  pub owned : user.phone ≡ some number
  pub link : ShopUser
  pub linked : In link door.db.shop_users
  pub user_link : link.user_id ≡ user.id
  pub right :
      (verify_code p.process.mac p.process.secret number login typed p.process.now
        door.phone_codes).0
      ≡ true

abbrev pub Proves : LoginProcess → LoginRequest → Door → User → Type 0
Proves p (with_password email password next) door user = ByPassword p email password user
Proves p (with_code typed) door user = ByCode p typed door user
Proves p req door user = ⊥

-- The session is that of a stored user who is not blocked and has proved who they are, with room at the limiter.
pub record IsLoggedIn (p : LoginProcess) (ip : Text) (req : LoginRequest) (door after : Door)
    : Type 0 where
  pub user : User
  pub stored : In user door.db.users
  pub unblocked : user.blocked_at ≡ none
  pub entered : after.session.user_id ≡ some user.id
  pub room : (allow door.limiter ip p.process.now).0 ≡ true
  pub proved : Proves p req door user

abbrev pub Enters : LoginProcess → Text → LoginRequest → Door → Door → Type 0
Enters p ip req door after =
    (after.session.user_id ≡ door.session.user_id) ⊎ IsLoggedIn p ip req door after

has_email_lem : (e : Text) (o : Option Text) → has_email e o ≡ true → o ≡ some e
has_email_lem e none h = cc
has_email_lem e (some t) h = ap some (eq_of_text_eq t e h)

unblocked_lem : (u : User) → not (is_blocked u) ≡ true → u.blocked_at ≡ none
unblocked_lem u h = elim (Option-cases u.blocked_at) [
  | inl e ↦ e
  | inr (t, e) ↦ let wrong = rw e at h in cc
]

password_matches_lem :
    (p : LoginProcess) (password : Text) (o : Option Text)
    → password_matches p password o ≡ true
    → (hash : Text) × (o ≡ some hash) × (p.verify_password hash password ≡ true)
password_matches_lem p password none h = cc
password_matches_lem p password (some hash) h = (hash, refl, h)

unless_limited-Enters :
    (p : LoginProcess) (ip : Text) (req : LoginRequest) (door : Door) (x : Bool × RateLimiter)
    (k : Door → LoginReply × Door)
    → (x.0 ≡ true → Enters p ip req door (k (record door { limiter = x.1 })).1)
    → Enters p ip req door (unless_limited x door k).1
unless_limited-Enters p ip req door (false, l) k h = inl refl
unless_limited-Enters p ip req door (true, l) k h = h refl

check_password-Enters :
    (p : LoginProcess) (ip email password target : Text) (next : Option Text) (door : Door)
    (l : RateLimiter)
    → (allow door.limiter ip p.process.now).0 ≡ true
    → Enters p ip
        (with_password email password next)
        door
        (check_password p password target
          (user_of_email p email door.db)
          (record door { limiter = l })).1
check_password-Enters p ip email password target next door l room =
    elim (Option-cases (user_of_email p email door.db)) [
      | inl e ↦ rw e (inl refl)
      | inr (user, e) ↦
          elim (Bool-cases
            (not (is_blocked user) && password_matches p password user.password_hash)) [
              | inr f ↦ rw (e, f) (inl refl)
              | inl f ↦
                  let (i, t) =
                    find-In (λ (u : User). has_email (p.lower (strip email)) u.email) user
                      door.db.users e in
                  let (hash, s, r) =
                    password_matches_lem p password user.password_hash (&&-right _ _ f) in
                  rw (e, f)
                    (inr (record {
                      user = user;
                      stored = i;
                      unblocked = unblocked_lem user (&&-left _ _ f);
                      entered = refl;
                      room = room;
                      proved = record {
                        address = has_email_lem _ user.email t;
                        kept = hash;
                        stored_hash = s;
                        right = r;
                      };
                    }))
            ]
    ]

check_code-Enters :
    (p : LoginProcess) (ip number typed : Text) (door : Door) (l : RateLimiter)
    → door.session.login_phone ≡ some number
    → (allow door.limiter ip p.process.now).0 ≡ true
    → (right : Bool) (t : PhoneCodes)
    → (verify_code p.process.mac p.process.secret number login typed p.process.now
        door.phone_codes).0
      ≡ right
    → Enters p ip
        (with_code typed)
        door
        (after_code right (provider_by_phone number door.db) t (record door { limiter = l })).1
check_code-Enters p ip number typed door l pending room false t e = inl refl
check_code-Enters p ip number typed door l pending room true t e =
    elim (Option-cases (provider_by_phone number door.db)) [
      | inl f ↦ rw f (inl refl)
      | inr (user, f) ↦
          let (i, s) =
            find-In
              (λ (u : User).
                any (λ (l : ShopUser). l.user_id == u.id) door.db.shop_users
                && has_email number u.phone
                && not (is_blocked u))
              user door.db.users f in
          let both = &&-left _ _ s in
          let (link, k, same) =
            any-witness (λ (l : ShopUser). l.user_id == user.id) door.db.shop_users
              (&&-left _ _ both) in
          rw f (
            inr (record {
              user = user;
              stored = i;
              unblocked = unblocked_lem user (&&-right _ _ s);
              entered = refl;
              room = room;
              proved = record {
                number = number;
                pending = pending;
                owned = has_email_lem number user.phone (&&-right _ _ both);
                link = link;
                linked = k;
                user_link = eq_of_== link.user_id user.id same;
                right = e;
              };
            }))
    ]

code_for-Enters :
    (p : LoginProcess) (ip typed : Text) (door : Door) (pending : Option Text)
    → door.session.login_phone ≡ pending
    → Enters p ip (with_code typed) door (code_for p ip typed pending door).1
code_for-Enters p ip typed door none e = inl refl
code_for-Enters p ip typed door (some number) e = elim (Bool-cases (is_empty number)) [
  | inl f ↦ rw f (inl refl)
  | inr f ↦ rw f (
      unless_limited-Enters p ip (with_code typed) door (allow door.limiter ip p.process.now) _
        λ room. check_code-Enters p ip number typed door _ e room _ _ refl)
]

-- A step that sends a code leaves the user of the session alone.
after_sending-session :
    (x : Result OtpError Text × PhoneCodes) (door : Door)
    → (after_sending x door).1.session ≡ door.session
after_sending-session (r, t) door = elim (Bool-cases (is_too_many r)) [
  | inl e ↦ rw e refl
  | inr e ↦ rw e refl
]

send_to_provider-session :
    (p : LoginProcess) (number : Text) (u : Option User) (door : Door)
    → (send_to_provider p number u door).1.session ≡ door.session
send_to_provider-session p number none door = refl
send_to_provider-session p number (some user) door = after_sending-session _ door

with_number-session :
    (p : LoginProcess) (r : Result Error Text) (door : Door)
    → (with_number p r door).1.session.user_id ≡ door.session.user_id
with_number-session p (err e) door = refl
with_number-session p (ok number) door =
    ap (λ (s : LoginSession). s.user_id)
      (send_to_provider-session p number _ (remember_phone number door))

resend_login-session :
    (p : LoginProcess) (pending : Option Text) (door : Door)
    → (resend_login p pending door).session ≡ door.session
resend_login-session p none door = refl
resend_login-session p (some number) door = elim (Bool-cases (is_empty number)) [
  | inl e ↦ rw e refl
  | inr e ↦ rw e (send_to_provider-session p number (provider_by_phone number door.db) door)
]

remember_next-session :
    (next : Option Text) (s : LoginSession) → (remember_next next s).user_id ≡ s.user_id
remember_next-session none s = refl
remember_next-session (some next) s = elim (Bool-cases (is_empty next)) [
  | inl e ↦ rw e refl
  | inr e ↦ rw e refl
]

-- After a request of the login the session has the user that it had, or none, or a stored user who is not
-- blocked, where the limiter had room: one with the e-mail address and the password of the form, or one
-- with the phone of the session and a shop, for which the code was verified.
pub knock-IsLoggedIn :
    (p : LoginProcess) (ip : Text) (req : LoginRequest) (door : Door)
    → let after = (knock p ip req door).1 in
      (after.session.user_id ≡ none) ⊎ Enters p ip req door after
unfolding knock
knock-IsLoggedIn p ip (with_password email password next) door = inr (
    unless_limited-Enters p ip (with_password email password next) door
      (allow door.limiter ip p.process.now) _
      λ room. check_password-Enters p ip email password (safe_next next shop_path) next door _ room)
knock-IsLoggedIn p ip (open_form next) door = inr (inl (remember_next-session next door.session))
knock-IsLoggedIn p ip (with_phone number) door = inr (
    unless_limited-Enters p ip (with_phone number) door (allow door.limiter ip p.process.now) _
      λ room. inl (with_number-session p (normalize_phone p.process.host number) _))
knock-IsLoggedIn p ip again door = inr (
    inl
      (ap (λ (s : LoginSession). s.user_id) (resend_login-session p door.session.login_phone door)))
knock-IsLoggedIn p ip (with_code typed) door =
    inr (code_for-Enters p ip typed door door.session.login_phone refl)
knock-IsLoggedIn p ip leave door = inl refl
