-- ===== src/Wizard/Entry.antt =====
-- web/onboarding.py: `code_submit`
use twirl.Prelude.{◌≡◌, refl, ◌⊎◌, inl, inr, Bool, true, false, some, Text, Bool-cases, ltb}
use twirl.Model.{User}
use twirl.Otp.{PhoneCodes, signup, verify_code}
use twirl.Onboarding.Provider.{verify_provider_phone}
use twirl.Onboarding.Provider.Verified.{IsProvider, verify_provider_phone-IsProvider}
use twirl.Wizard.{Site, flow, reached, has_user, step_index}
use twirl.Wizard.Forms.{Process, code_submit, enter, text_or_empty}

-- The browser is logged in as a provider whose pending phone was just verified.
pub record IsEntered (p : Process) (typed : Text) (site site' : Site) : Type 0 where
  pub user : User
  pub right :
      (verify_code p.mac p.secret
        (text_or_empty site.browser.phone)
        signup
        typed
        p.now
        site.phone_codes).0
      ≡ true
  pub entered : site'.browser.user_id ≡ some user.id
  pub provider : IsProvider (text_or_empty site.browser.phone) p.now user site'.db.users

enter-IsEntered :
    (p : Process) (typed : Text) (right : Bool) (t : PhoneCodes) (site : Site)
    → (verify_code p.mac p.secret
        (text_or_empty site.browser.phone)
        signup
        typed
        p.now
        site.phone_codes).0
      ≡ right
    → let site' = (enter p (text_or_empty site.browser.phone) right t site).1 in
      (site'.browser ≡ site.browser) ⊎ IsEntered p typed site site'
enter-IsEntered p typed false t site e = inl refl
enter-IsEntered p typed true t site e = inr (record {
  user = (verify_provider_phone (text_or_empty site.browser.phone) p.now site.db).0;
  right = e;
  entered = refl;
  provider = verify_provider_phone-IsProvider (text_or_empty site.browser.phone) p.now site.db;
})

-- The form of the code leaves the session of the browser as it was, or `verify_code` has said yes to the
-- phone that the session waits for, and the browser is logged in as a stored user who has that phone, is
-- no renter and was verified now.
pub code_submit-IsEntered :
    (p : Process) (typed : Text) (site : Site)
    → let site' = (code_submit p typed site).1 in
      (site'.browser ≡ site.browser) ⊎ IsEntered p typed site site'
unfolding code_submit flow
code_submit-IsEntered p typed site = elim (Bool-cases (has_user (flow site.browser site.db))) [
  | inl e ↦ inl (rw e refl)
  | inr e ↦ elim (Bool-cases (ltb (step_index (reached (flow site.browser site.db) site.db)) 2)) [
    | inl g ↦ inl (rw (e, g) refl)
    | inr g ↦ rw (e, g) (enter-IsEntered p typed _ _ site refl)
  ]
]
