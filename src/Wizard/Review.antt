-- ===== src/Wizard/Review.antt =====
-- web/onboarding.py: `review_submit`
use twirl.Prelude.{
  ℕ, ◌≡◌, refl, sym, ap, ◌∙◌, inl, inr, Bool, true, Option, none, some, List, find, Bool-cases,
  Option-cases, ltb, ◌==◌,
}
use twirl.Exec.{Result, ok, err, ◌>>=◌}
use twirl.Errors.{Error, OnboardingCode, onboarding_error, terms, incomplete, no_result}
use twirl.Staff.{load_shop, load_style}
use twirl.Model.{Db, Shop, Style}
use twirl.Onboarding.{publish, put_style}
use twirl.Onboarding.Provider.{blocked_dates}
use twirl.Onboarding.Listing.{IsComplete, publish_outcome}
use twirl.Wizard.{
  Site, Reply, go, WizardStep, fork, phone, code, profile, dress, price, done, review, flow,
  reached, step_index, draft_style, settled,
}
use twirl.Wizard.Forms.{Process, review_submit, put_up, review_again, review_wrong, with_draft}

-- A complete stored listing, for which the terms were accepted, and the tables in which it is published.
pub record IsPublished (style_id : ℕ) (accepted : Bool) (db d : Db) : Type 0 where
  pub style : Style
  pub stored : find (λ (st : Style). st.id == style_id) db.styles ≡ some style
  pub agreed : accepted ≡ true
  pub complete : IsComplete style db
  pub online : d.styles ≡ put_style (record style { published = true }) db.styles

fails :
    {A : Type 0} (e : Error) (a : A) (r : Result Error A × Db) (d : Db)
    → r.0 ≡ err e
    → r ≡ (ok a, d)
    → ⊥
fails e a r d f h = cc

no_shop :
    (shop_id style_id : ℕ) (accepted : Bool) (now : ℕ) (db : Db)
    → find (λ (s : Shop). s.id == shop_id) db.shops ≡ none
    → (publish shop_id style_id accepted now db).0 ≡ err no_result
unfolding publish load_shop ◌>>=◌
no_shop shop_id style_id accepted now db e = rw e refl

no_style :
    (shop_id style_id : ℕ) (accepted : Bool) (now : ℕ) (db : Db) (shop : Shop)
    → find (λ (s : Shop). s.id == shop_id) db.shops ≡ some shop
    → find (λ (s : Style). s.id == style_id) db.styles ≡ none
    → (publish shop_id style_id accepted now db).0 ≡ err no_result
unfolding publish load_shop load_style ◌>>=◌
no_style shop_id style_id accepted now db shop e f = rw (e, f) refl

publish-IsPublished :
    (shop_id style_id : ℕ) (accepted : Bool) (now : ℕ) (db d : Db)
    → publish shop_id style_id accepted now db ≡ (ok tt, d)
    → IsPublished style_id accepted db d
publish-IsPublished shop_id style_id accepted now db d h =
    let r = publish shop_id style_id accepted now db in
    elim (Option-cases (find (λ (s : Shop). s.id == shop_id) db.shops)) [
      | inl e ↦ absurd (fails no_result tt r d (no_shop shop_id style_id accepted now db e) h)
      | inr (shop, e) ↦ elim (Option-cases (find (λ (s : Style). s.id == style_id) db.styles)) [
        | inl f ↦
            absurd (fails no_result tt r d (no_style shop_id style_id accepted now db shop e f) h)
        | inr (style, f) ↦ elim (publish_outcome shop_id style_id accepted now db shop style e f) [
          | inl (said, refused, same) ↦ absurd (fails (onboarding_error terms) tt r d said h)
          | inr (inl (said, accepts, missing, same)) ↦
              absurd (fails (onboarding_error incomplete) tt r d said h)
          | inr (inr (said, accepts, complete, styles, shops)) ↦ record {
            style = style;
            stored = f;
            agreed = accepts;
            complete = complete;
            online = sym (ap (λ (x : Result Error (Unit {0}) × Db). x.1.styles) h) ∙ styles;
          }
        ]
      ]
    ]

again_not_done :
    (busy : Result Error (List ℕ)) (errors : List OnboardingCode)
    → review_again busy errors ≡ go done
    → ⊥
again_not_done (ok days) errors h = cc
again_not_done (err e) errors h = cc

not_done : (busy : Result Error (List ℕ)) (e : Error) → review_wrong busy e ≡ go done → ⊥
not_done busy (onboarding_error terms) h = again_not_done busy _ h
not_done busy (onboarding_error _) h = again_not_done busy _ h
not_done busy _ h = cc

-- Once the form says that the listing is done, it was published.
settled_done :
    (site site' : Site) (busy : Result Error (List ℕ)) (r : Result Error (Unit {0}) × Db)
    → settled site r (λ u. go done) (review_wrong busy) ≡ (go done, site')
    → r ≡ (ok tt, site'.db)
settled_done site site' busy (ok tt, d) h = cc
settled_done site site' busy (err e, d) h =
    absurd (not_done busy e (ap (λ (x : Reply × Site). x.0) h))

-- What the form of the review says when it is done, of the draft that the flow has.
draft_done :
    (p : Process) (shop : Option Shop) (st : Option Style) (accepted : Bool) (site site' : Site)
    → with_draft st site (put_up p shop accepted site) ≡ (go done, site')
    → (s : Style) × (st ≡ some s) × IsPublished s.id accepted site.db site'.db
draft_done p shop none accepted site site' h = cc
draft_done p none (some s) accepted site site' h = cc
draft_done p (some shop) (some s) accepted site site' h = (
  s,
  refl,
  publish-IsPublished shop.id s.id accepted p.now site.db site'.db (
      settled_done site site' (blocked_dates s.id site.db)
        (publish shop.id s.id accepted p.now site.db) h),
)

not_redirected : (step : WizardStep) → ltb (step_index step) 6 ≡ true → go step ≡ go done → ⊥
not_redirected fork l h = cc
not_redirected phone l h = cc
not_redirected code l h = cc
not_redirected profile l h = cc
not_redirected dress l h = cc
not_redirected price l h = cc
not_redirected review l h = cc
not_redirected done l h = cc

-- Where the form of the review leads to the last step, the terms were accepted, the draft of the browser
-- is a stored style that has a category, items, a price and three photos, and it is published now.
pub review_submit-IsPublished :
    (p : Process) (accepted : Bool) (site site' : Site)
    → review_submit p accepted site ≡ (go done, site')
    → (s : Style) × (draft_style (flow site.browser site.db) ≡ some s)
      × IsPublished s.id accepted site.db site'.db
unfolding review_submit
review_submit-IsPublished p accepted site site' h =
    let f = flow site.browser site.db in
    elim (Bool-cases (ltb (step_index (reached f site.db)) 6)) [
      | inl e ↦
          absurd (not_redirected (reached f site.db) e (ap (λ (x : Reply × Site). x.0) (rw e at h)))
      | inr e ↦ draft_done p f.shop (draft_style f) accepted site site' (rw e at h)
    ]
