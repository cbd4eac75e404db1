-- ===== src/Onboarding/Listing.antt =====
-- onboarding.py: `publish`
use twirl.Prelude.{
  codes, if◌then◌else◌, ℕ, ◌≤◌, ◌<◌, ◌≡◌, refl, ◌⊎◌, inl, inr, Bool, true, false, some, arith, find,
  ◌==◌, Bool-cases,
}
use twirl.Exec.{ok, err, pure, raise, gets, ◌>>=◌}
use twirl.Errors.{onboarding_error, terms, incomplete}
use twirl.Model.{Db, Shop, ShopStatus, Style, is_draft}
use twirl.Staff.{load_shop, load_style}
use twirl.Notify.{notify_admin, enqueue}
use twirl.Onboarding.{
  active_items, photo_count, has_none, is_missing, is_incomplete, put_style, put_shop, write_style,
  write_shop, published_shop, put_online, publish,
}

-- What a listing must have.
pub record IsComplete (style : Style) (db : Db) : Type 0 where
  pub has_category : is_missing style.category ≡ false
  pub has_items : has_none (active_items style.id db) ≡ false
  pub has_price : 0 < style.price_cents
  pub has_photos : 3 ≤ photo_count style.id db

IsComplete-is_incomplete :
    (style : Style) (db : Db) → is_incomplete style db ≡ false → IsComplete style db
unfolding is_incomplete
IsComplete-is_incomplete style db h = record {
  has_category = ground arith;
  has_items = ground arith;
  has_price = ground arith;
  has_photos = ground arith;
}

complete_lem : (style : Style) (db : Db) → is_incomplete style db ≡ true → ¬ IsComplete style db
unfolding is_incomplete
complete_lem style db h c = ground (arith, c.has_category, c.has_items, c.has_price, c.has_photos)

-- A draft goes online, and any other shop stays what it is.
abbrev pub StatusAfter : ShopStatus → ShopStatus → Type 0
StatusAfter ShopStatus.draft after = after ≡ ShopStatus.published
StatusAfter before after = after ≡ before

-- The shop after the terms were accepted.
pub record HasAccepted (shop : Shop) (now : ℕ) (after : Shop) : Type 0 where
  pub status : StatusAfter shop.status after.status
  pub accepted : after.terms_accepted_at ≡ some now
  pub version : after.terms_version ≡ some (codes "2026-09-25")
  pub others : after ≡ record shop {
    status = after.status;
    terms_accepted_at = after.terms_accepted_at;
    terms_version = after.terms_version;
    onboarding_completed_at = after.onboarding_completed_at;
  }

status_lem : (s : ShopStatus) → StatusAfter s (if is_draft s then ShopStatus.published else s)
status_lem ShopStatus.draft = refl
status_lem ShopStatus.verified = refl
status_lem ShopStatus.published = refl
status_lem ShopStatus.suspended = refl

published_shop-HasAccepted :
    (shop : Shop) (now : ℕ) → HasAccepted shop now (published_shop shop now)
published_shop-HasAccepted shop now = record {
  status = status_lem shop.status;
  accepted = refl;
  version = refl;
  others = refl;
}

module _ (shop_id style_id : ℕ) (accepted_terms : Bool) (now : ℕ) (db : Db) (shop : Shop)
    (style : Style) where
  -- Publishing a stored style of a stored shop without the terms is refused for the terms; with them, a
  -- listing that lacks a category, items, a price or three photos is refused as incomplete. The refusals
  -- change nothing; otherwise the style is published, and the shop has accepted the terms and is published
  -- if it was a draft.
  pub publish_outcome :
      find (λ (s : Shop). s.id == shop_id) db.shops ≡ some shop
      → find (λ (s : Style). s.id == style_id) db.styles ≡ some style
      → let (said, d) = publish shop_id style_id accepted_terms now db in
        ((said ≡ err (onboarding_error terms)) × (accepted_terms ≡ false) × (d ≡ db))
        ⊎ (((said ≡ err (onboarding_error incomplete))
              × (accepted_terms ≡ true)
              × ¬ IsComplete style db
              × (d ≡ db))
            ⊎ ((said ≡ ok tt)
                × (accepted_terms ≡ true)
                × IsComplete style db
                × (d.styles ≡ put_style (record style { published = true }) db.styles)
                × ((after : Shop) × HasAccepted shop now after
                    × (d.shops ≡ put_shop after db.shops))))
  unfolding publish load_shop load_style put_online write_style write_shop notify_admin enqueue gets
      raise pure ◌>>=◌
  publish_outcome has_shop has_style = elim (Bool-cases accepted_terms) [
    | inr e ↦ inl (rw has_shop (rw has_style (rw e (refl, refl, refl))))
    | inl e ↦ elim (Bool-cases (is_incomplete style db)) [
      | inl f ↦ inr (
          inl
            (rw has_shop (rw has_style (rw e (rw f (refl, refl, complete_lem style db f, refl))))))
      | inr f ↦ inr (
          inr (
            rw has_shop (
              rw has_style (
                rw e (
                  rw f (
                    refl,
                    refl,
                    IsComplete-is_incomplete style db f,
                    refl,
                    (published_shop shop now, published_shop-HasAccepted shop now, refl),
                  ))))))
    ]
  ]
