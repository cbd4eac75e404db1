-- ===== src/Wizard/Opens.antt =====
-- web/onboarding.py: the pages of the wizard, and where they lead.
use twirl.Prelude.{
  ℕ, List, [], ◌∷◌, ◌<◌, ◌++◌, ◌+◌, ◌-◌, In, In-where, leb, arith, ◌≡◌, refl, subst, sym, inl, inr,
  true, ◌||◌, Option, none, some, Text, Bool-cases, Option-cases, ◌==◌,
}
use twirl.Exec.{ok, pure, gets, ◌>>=◌}
use twirl.Model.{Booking, Item, Db, User, Shop, ShopKind, Style, is_draft}
use twirl.Catalog.{insert_style}
use twirl.Dates.{date_max}
use twirl.Onboarding.Provider.{days_from, blocked_dates, blocked_days_of, block_days, days_of_block}
use twirl.Onboarding.{onboarding_blocks, active_items, has_none, is_missing}
use twirl.Onboarding.Draft.{get_or_create_draft_style, or_newest, named_draft, newest_draft}
use twirl.Wizard.{
  WizardStep, phone, code, profile, dress, price, review, done, Browser, Site, Reply, shows, Flow,
  flow, reached, open_at, open_step, resume_draft, path_of, has_open_style, path_named, same_kind,
  is_set, draft_style, with_busy_dates,
}

-- A reply that shows the page of the step.
abbrev pub Shows : WizardStep → Reply × Site → Type 0
Shows step r = r.0 ≡ shows step

-- Every booking ends before the last day that `date` has.
abbrev pub EndInTime : Db → Type 0
EndInTime db = (b : Booking) → In b db.bookings → b.return_date < date_max

days_of_block-ok :
    (b : Booking) → b.return_date < date_max → (days : List ℕ) × (days_of_block b ≡ ok days)
days_of_block-ok b h = elim (Bool-cases (leb date_max b.return_date)) [
  | inl late ↦ absurd (ground (arith, late, h))
  | inr early ↦ elim (Bool-cases (leb b.pickup_date b.return_date)) [
    | inl e ↦ (days_from (b.return_date + 1 - b.pickup_date) b.pickup_date, rw (e, early) refl)
    | inr e ↦ (days_from (b.return_date + 1 - b.pickup_date) b.pickup_date, rw e refl)
  ]
]

block_days-ok :
    (blocks : List Booking)
    → ((b : Booking) → In b blocks → b.return_date < date_max)
    → (days : List ℕ) × (block_days blocks ≡ ok days)
unfolding block_days
block_days-ok [] h = ([], refl)
block_days-ok (b ∷ blocks) h =
    let (days, e) = days_of_block-ok b (h b (inl refl)) in
    let (rest, f) = block_days-ok blocks (λ c i. h c (inr i)) in (days ++ rest, rw (e, f) refl)

blocked_days_of-ok :
    (items : List Item) (db : Db)
    → EndInTime db
    → (days : List ℕ) × (blocked_days_of items db ≡ ok days)
unfolding onboarding_blocks
blocked_days_of-ok [] db h = ([], refl)
blocked_days_of-ok (item ∷ items) db h =
    block_days-ok (onboarding_blocks item.id db) λ b i. h b (In-where _ b db.bookings i).0

busy-Shows :
    (step : WizardStep) (st : Style) (site : Site)
    → EndInTime site.db
    → Shows step (with_busy_dates (some st) step site)
unfolding blocked_dates
busy-Shows step st site h =
    let (days, e) = blocked_days_of-ok (active_items st.id site.db) site.db h in rw e refl

-- What `_flow` puts together: no shop without a user, no style without a shop, and a path with a shop.
record IsFlow (f : Flow) : Type 0 where
  pub shopless : f.user ≡ none → f.shop ≡ none
  pub styleless : f.shop ≡ none → f.style ≡ none
  pub on_path : (shop : Shop) → f.shop ≡ some shop → (kind : ShopKind) × (f.path ≡ some kind)

flow-IsFlow : (b : Browser) (db : Db) → IsFlow (flow b db)
unfolding flow
flow-IsFlow b db = record {
  shopless = λ e. rw e refl;
  styleless = λ e. rw e refl;
  on_path = λ shop e. rw e (with_path shop (path_named b.path));
}
  where
    with_path :
        (shop : Shop) (chosen : Option ShopKind)
        → (kind : ShopKind) × (path_of (some shop) chosen ≡ some kind)
    with_path shop none = (shop.kind, refl)
    with_path shop (some c) = elim (Bool-cases (is_draft shop.status)) [
      | inl e ↦ (c, rw e refl)
      | inr e ↦ (shop.kind, rw e refl)
    ]

resume-Shows : (shop : Shop) (site : Site) → Shows dress (resume_draft (some shop) site)
unfolding get_or_create_draft_style ◌>>=◌ gets pure insert_style
resume-Shows shop site =
    let found =
      or_newest (named_draft shop.id none site.db.styles) (newest_draft shop.id site.db.styles) in
    elim (Option-cases found) [ inl e ↦ rw e refl | inr (st, e) ↦ rw e refl ]

-- The page of the step that a flow has reached.
abbrev Opens : Flow → Site → Type 0
Opens f site = Shows (reached f site.db) (open_at (reached f site.db) f site)

-- A step that is reached opens where its own page does.
Opens-at :
    (f : Flow) (site : Site) (step : WizardStep)
    → reached f site.db ≡ step
    → Shows step (open_at step f site)
    → Opens f site
Opens-at f site step e h = subst (λ s. Shows s (open_at s f site)) (sym e) h

Opens-dress :
    (f : Flow) (shop : Shop) (site : Site)
    → f.shop ≡ some shop
    → reached f site.db ≡ dress
    → Opens f site
Opens-dress f shop site e r = Opens-at f site dress r (elim (Bool-cases (has_open_style f)) [
  | inl t ↦ rw (r, t) refl
  | inr t ↦ rw (r, t, e) (resume-Shows shop site)
])

Opens-profile : (f : Flow) (site : Site) → reached f site.db ≡ profile → Opens f site
Opens-profile f site r = Opens-at f site profile r (rw r refl)

Opens-price :
    (f : Flow) (st : Style) (site : Site)
    → draft_style f ≡ some st
    → reached f site.db ≡ price
    → EndInTime site.db
    → Opens f site
Opens-price f st site e r h = Opens-at f site price r (rw (r, e) (busy-Shows price st site h))

Opens-review :
    (f : Flow) (st : Style) (site : Site)
    → draft_style f ≡ some st
    → reached f site.db ≡ review
    → EndInTime site.db
    → Opens f site
Opens-review f st site e r h = Opens-at f site review r (rw (r, e) (busy-Shows review st site h))

module _ (user : User) (shop : Shop) (kind : ShopKind) (pending : Option Text) where
  abbrev shop_flow : Option Style → Flow
  shop_flow style = record {
    path = some kind;
    user = some user;
    shop = some shop;
    style = style;
    pending_phone = pending;
  }

  Opens-with :
      (style : Option Style) (site : Site) → EndInTime site.db → Opens (shop_flow style) site
  unfolding reached
  Opens-with style site h = elim (Bool-cases (same_kind kind shop.kind)) [
    | inr e ↦ Opens-profile (shop_flow style) site (rw e refl)
    | inl e ↦ dressed style e
  ]
    where
      dressed :
          (style : Option Style) → same_kind kind shop.kind ≡ true → Opens (shop_flow style) site
      dressed none e = Opens-dress (shop_flow none) shop site refl (rw e refl)
      dressed (some st) e = elim (Bool-cases st.published) [
        | inl p ↦ Opens-at (shop_flow (some st)) site done (rw (e, p) refl) (rw p refl)
        | inr p ↦
            elim (Bool-cases (is_missing st.category || has_none (active_items st.id site.db))) [
              | inl m ↦ Opens-dress (shop_flow (some st)) shop site refl (rw (e, p, m) refl)
              | inr m ↦ elim (Bool-cases (st.price_cents == 0)) [
                | inl z ↦
                    Opens-price (shop_flow (some st)) st site (rw p refl) (rw (e, p, m, z) refl) h
                | inr z ↦
                    Opens-review (shop_flow (some st)) st site (rw p refl) (rw (e, p, m, z) refl) h
              ]
            ]
      ]

flow_of : Option ShopKind → Option User → Option Shop → Option Style → Option Text → Flow
flow_of path user shop style pending = record {
  path = path;
  user = user;
  shop = shop;
  style = style;
  pending_phone = pending;
}

Opens-any :
    (path : Option ShopKind) (user : Option User) (shop : Option Shop) (style : Option Style)
    (pending : Option Text) (site : Site)
    → EndInTime site.db
    → IsFlow (flow_of path user shop style pending)
    → Opens (flow_of path user shop style pending) site
unfolding reached flow_of
Opens-any none none none style pending site h w = refl
Opens-any (some p) none none style pending site h w = elim (Bool-cases (is_set pending)) [
  | inl e ↦ Opens-at (flow_of (some p) none none style pending) site code (rw e refl) (rw e refl)
  | inr e ↦ Opens-at (flow_of (some p) none none style pending) site phone (rw e refl) refl
]
Opens-any path none (some s) style pending site h w = absurd (some_shop (w.shopless refl))
  where
    some_shop : {s : Shop} → some s ≡ none → ⊥
    some_shop e = cc
Opens-any none (some u) none style pending site h w = refl
Opens-any (some p) (some u) none style pending site h w = refl
Opens-any none (some u) (some s) style pending site h w =
    let (k, e) = w.on_path s refl in absurd (cc)
Opens-any (some p) (some u) (some s) style pending site h w = Opens-with u s p pending style site h

-- Wherever a provider stands in the wizard, the page of the furthest step that is reached opens: it
-- neither redirects nor fails, whatever the browser's session and the tables hold, as long as every booking
-- ends before the last day that `date` has.
pub reached-Shows :
    (site : Site)
    → EndInTime site.db
    → let step = reached (flow site.browser site.db) site.db in Shows step (open_step step site)
unfolding open_step flow_of
reached-Shows site h =
    let f = flow site.browser site.db in
    Opens-any f.path f.user f.shop f.style f.pending_phone site h (flow-IsFlow site.browser site.db)
