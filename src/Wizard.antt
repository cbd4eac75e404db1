-- ===== src/Wizard.antt =====
-- web/onboarding.py: the wizard in which a provider lists a first dress. A handler takes the form, its
-- fields parsed, and the state of the site with the browser's session, and answers with a reply.
pub mod Forms
pub mod Opens
pub mod Review
pub mod Entry
use twirl.Prelude.{
  ℕ, Bool, true, false, not, ◌&&◌, ◌||◌, Option, none, some, List, [], ◌∷◌, Text, codes, text_eq,
  is_empty, find, ltb, ◌==◌, if◌then◌else◌,
}
use twirl.Exec.{Exec, Result, ok, err}
use twirl.Errors.{Error, OnboardingCode}
use twirl.Model.{Db, User, Shop, ShopKind, Style, is_draft, is_individual, salon, individual}
use twirl.Session.{restore}
use twirl.Otp.{PhoneCodes}
use twirl.Onboarding.{active_items, has_none, is_missing}
use twirl.Onboarding.Provider.{provider_shop, blocked_dates}
use twirl.Onboarding.Draft.{get_or_create_draft_style}

pub data WizardStep : Type 0 where
  fork phone code profile dress price review done : WizardStep

-- STEPS.index(step)
abbrev pub step_index : WizardStep → ℕ
step_index fork = 0
step_index phone = 1
step_index code = 2
step_index profile = 3
step_index dress = 4
step_index price = 5
step_index review = 6
step_index done = 7

-- what the session of the browser holds for the wizard
pub record Browser : Type 0 where
  pub user_id : Option ℕ
  pub path : Option Text
  pub phone : Option Text
  pub style_id : Option ℕ

pub record Site : Type 0 where
  pub db : Db
  pub phone_codes : PhoneCodes
  pub files : List Text
  pub browser : Browser

-- What a handler answers: a redirect to a step, the page of a step, that page with the fields that are
-- wrong, the page with a message, or the photos of the dress; an exception that nothing handles.
pub data Reply : Type 0 where
  go : WizardStep → Reply
  shows : WizardStep → Reply
  wrong : WizardStep → List OnboardingCode → Reply
  too_many_codes not_found bad_request photos_shown : Reply
  photos_wrong : Error → Reply
  crashed : Error → Reply

pub record Flow : Type 0 where
  pub path : Option ShopKind
  pub user : Option User
  pub shop : Option Shop
  pub style : Option Style
  pub pending_phone : Option Text

-- PATHS.get(name)
abbrev pub path_named : Option Text → Option ShopKind
path_named none = none
path_named (some name) =
    if text_eq name (codes "salon")
    then some salon
    else if text_eq name (codes "individual")
    then some individual
    else none

abbrev pub user_of : Option ℕ → Db → Option User
user_of none db = none
user_of (some id) db =
    find (λ (u : User). u.id == id && elim u.blocked_at [ none ↦ true | some t ↦ false ]) db.users

abbrev pub shop_of_user : Option User → Db → Option Shop
shop_of_user none db = none
shop_of_user (some u) db = provider_shop u.id db

-- A shop fixes the path, unless it is a draft and the session says another one.
abbrev pub path_of : Option Shop → Option ShopKind → Option ShopKind
path_of none chosen = chosen
path_of (some shop) none = some shop.kind
path_of (some shop) (some chosen) = if is_draft shop.status then some chosen else some shop.kind

abbrev pub style_of : Option Shop → Option ℕ → Db → Option Style
style_of none id db = none
style_of (some shop) none db = none
style_of (some shop) (some id) db =
    find
      (λ (st : Style).
        st.id == id && st.shop_id == shop.id && elim st.deleted_at [ none ↦ true | some t ↦ false ])
      db.styles

-- `_flow`
unfoldable pub flow : Browser → Db → Flow
flow b db =
    let user = user_of b.user_id db in
    let shop = shop_of_user user db in
    record {
      path = path_of shop (path_named b.path);
      user = user;
      shop = shop;
      style = style_of shop b.style_id db;
      pending_phone = b.phone;
    }

-- Flow.is_draft
abbrev pub has_draft : Flow → Bool
has_draft f = elim f.shop [ none ↦ false | some shop ↦ is_draft shop.status ]

-- truth of a text that may be None
abbrev pub is_set : Option Text → Bool
is_set none = false
is_set (some t) = not (is_empty t)

abbrev pub same_kind : ShopKind → ShopKind → Bool
same_kind a b = elim a [ individual ↦ is_individual b | salon ↦ not (is_individual b) ]

abbrev pub is_path : Option ShopKind → ShopKind → Bool
is_path none kind = false
is_path (some path) kind = same_kind path kind

-- `Flow.reached` by what it looks at: without a user, without a shop, and with a style or none
abbrev pub reached_alone : Option ShopKind → Option Text → WizardStep
reached_alone none pending = fork
reached_alone (some path) pending = if is_set pending then code else phone

abbrev pub reached_shopless : Option ShopKind → WizardStep
reached_shopless none = fork
reached_shopless (some path) = profile

abbrev pub reached_dressed : Option Style → Db → WizardStep
reached_dressed none db = dress
reached_dressed (some st) db =
    if st.published
    then done
    else if is_missing st.category || has_none (active_items st.id db)
    then dress
    else if st.price_cents == 0
    then price
    else review

abbrev pub reached_with : Shop → Flow → Db → WizardStep
reached_with shop f db = if is_path f.path shop.kind then reached_dressed f.style db else profile

abbrev pub reached_by : User → Option Shop → Flow → Db → WizardStep
reached_by user none f db = reached_shopless f.path
reached_by user (some shop) f db = reached_with shop f db

abbrev pub reached_from : Option User → Flow → Db → WizardStep
reached_from none f db = reached_alone f.path f.pending_phone
reached_from (some user) f db = reached_by user f.shop f db

unfoldable pub reached : Flow → Db → WizardStep
reached f db = reached_from f.user f db

-- `_guard`, before the rest of a handler
abbrev pub guarded : WizardStep → Flow → Site → Reply × Site → Reply × Site
guarded step f site rest =
    if ltb (step_index (reached f site.db)) (step_index step)
    then (go (reached f site.db), site)
    else rest

-- db.commit() where the operation returns, and db.rollback() where it raises
abbrev pub settled :
    {A : Type 0} → Site → Result Error A × Db → (A → Reply) → (Error → Reply) → Reply × Site
settled site (ok a, d) good bad = (good a, record site { db = d })
settled site (err e, d) good bad = (bad e, record site { db = restore site.db d })

abbrev pub remember_style : Result Error Style → Browser → Browser
remember_style (ok st) b = record b { style_id = some st.id }
remember_style (err e) b = b

-- the draft that `dress_page` picks up where the session has none; its guard has seen a shop
abbrev pub resume_draft : Option Shop → Site → Reply × Site
resume_draft none site = (not_found, site)
resume_draft (some shop) site =
    let (r, d) = get_or_create_draft_style shop.id none site.db in
    settled (record site { browser = remember_style r site.browser }) (r, d) (λ st. shows dress)
      crashed

abbrev pub has_open_style : Flow → Bool
has_open_style f = elim f.style [ none ↦ false | some st ↦ not st.published ]

-- `_draft_style_or_404`
abbrev pub draft_style : Flow → Option Style
draft_style f = elim f.shop [
  | none ↦ none
  | some shop ↦ elim f.style [ none ↦ none | some st ↦ if st.published then none else some st ]
]

-- a page that lists the blocked dates of the draft, or the exception that working them out raises
abbrev pub busy_page : WizardStep → Result Error (List ℕ) → Reply
busy_page step (ok days) = shows step
busy_page step (err e) = crashed e

abbrev pub with_busy_dates : Option Style → WizardStep → Site → Reply × Site
with_busy_dates none step site = (not_found, site)
with_busy_dates (some st) step site = (busy_page step (blocked_dates st.id site.db), site)

abbrev pub has_user : Flow → Bool
has_user f = elim f.user [ none ↦ false | some u ↦ true ]

-- The GET handlers.
abbrev pub fork_page : Flow → Site → Reply × Site
fork_page f site =
    if not (is_missing f.shop) && not (has_draft f) then (go dress, site) else (shows fork, site)

abbrev pub phone_page : Flow → Site → Reply × Site
phone_page f site =
    if is_missing f.path
    then (go fork, site)
    else if has_user f
    then (go profile, site)
    else (shows phone, site)

abbrev pub code_page : Flow → Site → Reply × Site
code_page f site = if has_user f then (go profile, site) else guarded code f site (shows code, site)

abbrev pub profile_page : Flow → Site → Reply × Site
profile_page f site = guarded profile f site (shows profile, site)

abbrev pub dress_page : Flow → Site → Reply × Site
dress_page f site =
    guarded dress f site
      (if has_open_style f then (shows dress, site) else resume_draft f.shop site)

abbrev pub price_page : Flow → Site → Reply × Site
price_page f site = guarded price f site (with_busy_dates (draft_style f) price site)

abbrev pub review_page : Flow → Site → Reply × Site
review_page f site = guarded review f site (with_busy_dates (draft_style f) review site)

abbrev pub done_page : Flow → Site → Reply × Site
done_page f site =
    if elim f.style [ none ↦ false | some st ↦ st.published ]
    then (shows done, site)
    else (go (reached f site.db), site)

-- the page at the URL of a step
abbrev pub open_at : WizardStep → Flow → Site → Reply × Site
open_at fork f site = fork_page f site
open_at phone f site = phone_page f site
open_at code f site = code_page f site
open_at profile f site = profile_page f site
open_at dress f site = dress_page f site
open_at price f site = price_page f site
open_at review f site = review_page f site
open_at done f site = done_page f site

unfoldable pub open_step : WizardStep → Site → Reply × Site
open_step step site = open_at step (flow site.browser site.db) site
