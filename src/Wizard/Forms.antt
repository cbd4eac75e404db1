-- ===== src/Wizard/Forms.antt =====
-- web/onboarding.py: the handlers of the forms, and `send_code` of web/phone_auth.py.
use twirl.Prelude.{
  ℕ, ◌+◌, ◌*◌, Bool, true, false, not, ◌&&◌, Option, none, some, List, [], ◌∷◌, Text, find, where_,
  ◌==◌, if◌then◌else◌,
}
use twirl.Exec.{Result, ok, err}
use twirl.Errors.{OnboardingCode, Error, onboarding_error, value_error, terms}
use twirl.Host.{Host, normalize_phone}
use twirl.Model.{Db, Actor, ActorKind, User, Shop, ShopKind, Style, StyleImage}
use twirl.Session.{restore}
use twirl.Otp.{OtpError, PhoneCodes, signup, too_soon, too_many, issue_code, verify_code}
use twirl.Photos.{save_style_image, delete_style_image}
use twirl.Onboarding.{dress_errors, set_price_and_dates, publish, has_none, is_missing, member}
use twirl.Onboarding.Provider.{provider_shop, verify_provider_phone, blocked_dates}
use twirl.Onboarding.Profile.{Profile, provider_errors, save_provider}
use twirl.Onboarding.Draft.{Dress, set_dress}
use twirl.Wizard.{
  WizardStep, fork, phone, code, profile, dress, price, review, done, Browser, Site, Reply, go,
  wrong, too_many_codes, not_found, bad_request, photos_shown, photos_wrong, crashed, flow,
  has_draft, is_set, has_user, guarded, settled, draft_style, path_named,
}

-- What the handlers take from the process: the libraries, the clock, the numbers drawn, the MAC of the
-- codes and its key. `today` is an ordinal.
pub record Process : Type 0 where
  pub host : Host
  pub mac : Text → Text → Text
  pub secret : Text
  pub now : ℕ
  pub today : ℕ
  pub drawn : ℕ

abbrev pub in_session : Browser → Site → Site
in_session b site = record site { browser = b }

unfoldable pub choose_path : Text → Site → Reply × Site
choose_path path site =
    let f = flow site.browser site.db in
    if is_missing (path_named (some path))
    then (bad_request, site)
    else if not (is_missing f.shop) && not (has_draft f)
    then (go dress, site)
    else (
      go (if has_user f then profile else phone),
      in_session (record site.browser { path = some path }) site,
    )

-- `send_code`, of which the sending and the echo of a development server are left out
abbrev pub send_code : Process → Text → PhoneCodes → Result OtpError Text × PhoneCodes
send_code p number t = issue_code p.mac p.secret number signup p.now p.drawn t

abbrev pub is_too_many : Result OtpError Text → Bool
is_too_many (ok c) = false
is_too_many (err (too_soon wait)) = false
is_too_many (err too_many) = true

abbrev pub send_to : Process → Text → Site → Reply × Site
send_to p e164 site =
    let (r, t) = send_code p e164 site.phone_codes in
    if is_too_many r then (too_many_codes, site) else (
      go code,
      record site { phone_codes = t; browser = record site.browser { phone = some e164 } },
    )

abbrev pub send_if : Process → Result Error Text → Site → Reply × Site
send_if p (ok e164) site = send_to p e164 site
send_if p (err e) site = (wrong phone [], site)

unfoldable pub phone_submit : Process → Text → Site → Reply × Site
phone_submit p number site =
    let f = flow site.browser site.db in
    let sent = send_if p (normalize_phone p.host number) site in
    if is_missing f.path then (go fork, site) else sent

abbrev pub resend_to : Process → Option Text → Site → Site
resend_to p none site = site
resend_to p (some number) site = record site {
  phone_codes = (send_code p number site.phone_codes).1;
}

unfoldable pub code_resend : Process → Site → Reply × Site
code_resend p site =
    let f = flow site.browser site.db in
    if is_set f.pending_phone && not (has_user f)
    then (go code, resend_to p f.pending_phone site)
    else (go code, site)

abbrev pub text_or_empty : Option Text → Text
text_or_empty none = []
text_or_empty (some t) = t

-- the session after `login_user`, with the chosen path restored
abbrev pub logged_in : ℕ → Option Text → Browser
logged_in user_id path = record {
  user_id = some user_id;
  path = if is_set path then path else none;
  phone = none;
  style_id = none;
}

-- what follows the check of the code
abbrev pub enter : Process → Text → Bool → PhoneCodes → Site → Reply × Site
enter p number false t site = (wrong code [], record site { phone_codes = t })
enter p number true t site =
    let (u, d) = verify_provider_phone number p.now site.db in
    (
      go (if is_missing (provider_shop u.id d) then profile else dress),
      record site { db = d; phone_codes = t; browser = logged_in u.id site.browser.path },
    )

unfoldable pub code_submit : Process → Text → Site → Reply × Site
code_submit p typed site =
    let f = flow site.browser site.db in
    let number = text_or_empty f.pending_phone in
    let (right, t) = verify_code p.mac p.secret number signup typed p.now site.phone_codes in
    if has_user f then (go profile, site) else guarded code f site (enter p number right t site)

-- The form of the profile, its times parsed or replaced by those of the form's defaults.
abbrev pub save_profile : Host → Option ShopKind → Option User → Profile → Site → Reply × Site
save_profile host (some kind) (some user) form site =
    let p = record form { kind = kind } in
    if has_none (provider_errors host p)
    then settled site (save_provider host user.id p site.db) (λ shop. go dress) crashed
    else (wrong profile (provider_errors host p), site)
save_profile host _ _ form site = (bad_request, site)

unfoldable pub profile_submit : Process → Profile → Site → Reply × Site
profile_submit p form site =
    let f = flow site.browser site.db in
    guarded profile f site (save_profile p.host f.path f.user form site)

-- a handler of the draft, which is a 404 without one
abbrev pub with_draft : Option Style → Site → (Style → Reply × Site) → Reply × Site
with_draft none site k = (not_found, site)
with_draft (some st) site k = k st

abbrev pub stored_photo : Site → Result Error StyleImage × (Db × List Text) → Reply × Site
stored_photo site (ok image, (d, files)) = (photos_shown, record site { db = d; files = files })
stored_photo site (err e, (d, files)) =
    (photos_wrong e, record site { db = restore site.db d; files = files })

-- `processed` is the size of the image that the data holds, if it holds one; `hex` the name drawn.
unfoldable pub photo_upload : (hex : Text) → (processed : Option (ℕ × ℕ)) → Site → Reply × Site
photo_upload hex processed site =
    with_draft (draft_style (flow site.browser site.db)) site
      λ st. stored_photo site (save_style_image st.id hex processed (site.db, site.files))

abbrev pub delete_photo : Style → Option StyleImage → Site → Reply × Site
delete_photo st none site = (not_found, site)
delete_photo st (some image) site =
    let (keys, d) = delete_style_image image site.db in
    if image.style_id == st.id
    then (
      photos_shown,
      record site { db = d; files = where_ (λ key. not (member key keys)) site.files },
    )
    else (not_found, site)

unfoldable pub photo_delete : (image_id : ℕ) → Site → Reply × Site
photo_delete image_id site =
    with_draft (draft_style (flow site.browser site.db)) site
      λ st. delete_photo st (find (λ (i : StyleImage). i.id == image_id) site.db.style_images) site

abbrev pub save_dress : Host → Option ShopKind → Dress → Site → Style → Reply × Site
save_dress host none form site st = (bad_request, site)
save_dress host (some kind) form site st =
    let d = record form { kind = kind } in
    let errors = dress_errors st.id kind d.category d.sizes site.db in
    if has_none errors
    then settled site (set_dress host st.id d site.db) (λ u. go price) crashed
    else (wrong dress errors, site)

unfoldable pub dress_submit : Process → Dress → Site → Reply × Site
dress_submit p form site =
    let f = flow site.browser site.db in
    guarded dress f site (with_draft (draft_style f) site (save_dress p.host f.path form site))

unfoldable pub new_dress : Site → Reply × Site
new_dress site = (go dress, in_session (record site.browser { style_id = none }) site)

-- int(digits or 0) of the characters that `str.isdigit` takes
abbrev pub int_from : Host → ℕ → Text → Result Error ℕ
int_from host n [] = ok n
int_from host n (c ∷ s) = elim (host.decimal_of c) [
  | none ↦ err value_error
  | some d ↦ int_from host (n * 10 + d) s
]

-- the pages that catch an OnboardingError
abbrev pub caught : WizardStep → Error → Reply
caught step (onboarding_error c) = wrong step (c ∷ [])
caught step e = crashed e

abbrev pub user_actor : Option User → Actor
user_actor none = record { kind = ActorKind.shop; id = none }
user_actor (some u) = record { kind = ActorKind.shop; id = some u.id }

abbrev pub save_price : Process → Option User → Text → List ℕ → Site → Style → Reply × Site
save_price p user raw busy site st = elim (int_from p.host 0 (where_ p.host.is_digit raw)) [
  | err e ↦ (crashed e, site)
  | ok euros ↦
      settled site (set_price_and_dates p.host st.id euros busy (user_actor user) p.today site.db)
        (λ u. go review) (caught price)
]

-- `busy` are the dates that the form ticks.
unfoldable pub price_submit : Process → Text → List ℕ → Site → Reply × Site
price_submit p raw busy site =
    let f = flow site.browser site.db in
    guarded price f site (with_draft (draft_style f) site (save_price p f.user raw busy site))

-- The page again, with the blocked dates of the draft among its rows.
abbrev pub review_again : Result Error (List ℕ) → List OnboardingCode → Reply
review_again (ok days) errors = wrong review errors
review_again (err e) errors = crashed e

-- The page names the error of the terms only.
abbrev pub review_wrong : Result Error (List ℕ) → Error → Reply
review_wrong busy (onboarding_error terms) = review_again busy (terms ∷ [])
review_wrong busy (onboarding_error c) = review_again busy []
review_wrong busy e = crashed e

abbrev pub put_up : Process → Option Shop → Bool → Site → Style → Reply × Site
put_up p none accepted site st = (not_found, site)
put_up p (some shop) accepted site st =
    settled site (publish shop.id st.id accepted p.now site.db) (λ u. go done)
      (review_wrong (blocked_dates st.id site.db))

unfoldable pub review_submit : Process → (accepted_terms : Bool) → Site → Reply × Site
review_submit p accepted site =
    let f = flow site.browser site.db in
    guarded review f site (with_draft (draft_style f) site (put_up p f.shop accepted site))
