-- ===== src/Tests/Login.antt =====
-- web/auth.py with one owner who has a password.
use twirl.Prelude.{◌≡◌, ◌⊎◌, refl, some, none, [], ◌∷◌, Option, ℕ, Text, codes, strip, text_eq}
use twirl.RateLimit.{allow, trim}
use twirl.Home.{safe_next}
use twirl.Login.{LoginProcess, Door, LoginRequest, no_session, with_password, knock}
use twirl.Login.Entered.{Enters, knock-IsLoggedIn}
use twirl.Tests.Data.{sample_db, sample_owner}
use twirl.Tests.Wizard.{process}

abbrev desk_login : LoginProcess
desk_login = record {
  process = process;
  lower = λ t. t;
  verify_password = λ hash password. text_eq hash password;
}

abbrev door_of : Door
door_of = record {
  session = no_session;
  limiter = record { max_events = 1; window = 900; events = λ key. [] };
  phone_codes = record { rows = []; seq = 1 };
  db = record sample_db {
    users = record sample_owner { password_hash = some (codes "sekret") } ∷ [];
  };
}

abbrev sign_in : Text → LoginRequest
sign_in password = with_password (codes " besa@salon ") password none

abbrev user_after : LoginRequest → Option ℕ
user_after req = (knock desk_login (codes "ip") req door_of).1.session.user_id

right_password : user_after (sign_in (codes "sekret")) ≡ some 2
unfolding knock allow safe_next strip trim text_eq
right_password = refl

wrong_password : user_after (sign_in (codes "sekre")) ≡ none
unfolding knock allow safe_next strip trim text_eq
wrong_password = refl

knock-IsLoggedIn_example :
    let after = (knock desk_login (codes "ip") (sign_in (codes "sekret")) door_of).1 in
    (after.session.user_id ≡ none)
    ⊎ Enters desk_login (codes "ip") (sign_in (codes "sekret")) door_of after
knock-IsLoggedIn_example =
    knock-IsLoggedIn desk_login (codes "ip") (sign_in (codes "sekret")) door_of
