-- ===== src/Storefront/Limited.antt =====
-- web/storefront.py: `request_dress` and the limiter
use twirl.Prelude.{In, ℕ, ◌≡◌, ◌⊎◌, true, some, Text}
use twirl.Exec.{ok}
use twirl.Host.{Host}
use twirl.Model.{Shop, is_published, Db, Style, Booking}
use twirl.Session.{restore}
use twirl.RateLimit.{RateLimiter, blocked, allow, record_event}
use twirl.Requests.{RentalRequest, Rivals, create_request}
use twirl.Requests.Stored.{IsRequested}
use twirl.Storefront.{FormReply, to_request, RequestForm}

-- The dress whose page is at the slug and the code: of the published shop with that slug.
pub record IsAt (slug code : Text) (db : Db) (st : Style) : Type 0 where
  pub shop : Shop
  pub shop_stored : In shop db.shops
  pub at_slug : shop.slug ≡ slug
  pub online : is_published shop.status ≡ true
  pub stored : In st db.styles
  pub own : st.shop_id ≡ shop.id
  pub at_code : st.code ≡ code

-- A request that was stored: the limiter had room for the address, and the request counts.
pub record IsStored (host : Host) (rivals : Rivals) (today n : ℕ) (slug code : Text) (ip : Text)
    (now : ℕ) (l : RateLimiter) (db : Db) (form : RequestForm) (r : FormReply × Db × RateLimiter)
    : Type 0 where
  pub style : Style
  pub page : IsAt slug code db style
  pub request : RentalRequest
  pub typed : form.parsed ≡ some request
  pub booking : Booking
  pub created :
      create_request host rivals (record request { style_id = style.id }) today n db
      ≡ (ok booking, r.1)
  pub stored : IsRequested style.id request.event_date booking r.1
  pub told : r.0 ≡ to_request booking.ref
  pub had_room : (allow l ip now).0 ≡ true
  pub counted : r.2 ≡ record_event (blocked l ip now).1 ip now

-- The rows are as they were, and the request does not count.
abbrev pub IsRefused : Text → ℕ → RateLimiter → Db → FormReply × Db × RateLimiter → Type 0
IsRefused ip now l db r =
    ((r.1 ≡ db) ⊎ ((d : Db) × (r.1 ≡ restore db d))) × ((r.2 ≡ l) ⊎ (r.2 ≡ (blocked l ip now).1))

module _ (host : Host) (rivals : Rivals) (today n : ℕ) (slug code : Text) (ip : Text) (now : ℕ)
    (l : RateLimiter) (db : Db) (form : RequestForm) where
  abbrev pub Answered : FormReply × Db × RateLimiter → Type 0
  Answered r = IsStored host rivals today n slug code ip now l db form r ⊎ IsRefused ip now l db r
