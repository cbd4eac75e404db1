-- ===== src/Storefront.antt =====
-- web/storefront.py: the pages of a published shop, and the form of a request.
pub mod Limited
use twirl.Prelude.{
  ℕ, Bool, true, false, not, ◌&&◌, Option, none, some, List, [], ◌∷◌, Text, codes, text_eq,
  is_empty, find, any, map, where_, ◌==◌, if◌then◌else◌,
}
use twirl.Exec.{Exec, Result, ok, err, and_then}
use twirl.Errors.{Error, DateCode, invalid_dates, invalid_phone, no_availability, not_bookable}
use twirl.Host.{Host}
use twirl.Model.{Db, Shop, Style, Item, Booking, is_published, is_in_use, is_online, BookingKind}
use twirl.Session.{restore}
use twirl.Sizes.{distinct, sorted_sizes}
use twirl.Search.Pages.{is_style_online}
use twirl.Availability.Sized.{StyleAvailability, style_availability, sizes_in_use}
use twirl.RateLimit.{RateLimiter, blocked, record_event}
use twirl.Requests.{RentalRequest, Rivals, create_request}

-- `_shop`; none is a 404
unfoldable pub shop_page : Text → Db → Option Shop
shop_page slug db = find (λ (s : Shop). text_eq s.slug slug && is_published s.status) db.shops

-- `_style`
unfoldable pub style_page : Shop → Text → Db → Option Style
style_page shop code db =
    find (λ (st : Style). st.shop_id == shop.id && text_eq st.code code && is_style_online st)
      db.styles

-- `_style_sizes`
unfoldable pub style_sizes : Host → ℕ → Db → Result Error (List Text)
style_sizes host style_id db = sorted_sizes host (distinct (sizes_in_use style_id db))

-- `confirmation`
unfoldable pub confirmation : Shop → Text → Db → Option Booking
confirmation shop ref db =
    find (λ (b : Booking). b.shop_id == shop.id && text_eq b.ref ref && is_online b.kind)
      db.bookings

-- the context of `_availability_context`: an answer, an error of the dates, or neither without a date
pub record Context : Type 0 where
  pub availability : Option StyleAvailability
  pub date_error : Option DateCode

abbrev pub dated_context : Result Error StyleAvailability → Result Error Context
dated_context (ok a) = ok (record { availability = some a; date_error = none })
dated_context (err (invalid_dates code)) =
    ok (record { availability = none; date_error = some code })
dated_context (err e) = err e

unfoldable pub availability_context :
    Host → Style → Shop → Option ℕ → (today : ℕ) → Db → Result Error Context
availability_context host st shop none today db =
    ok (record { availability = none; date_error = none })
availability_context host st shop (some event) today db =
    dated_context (style_availability host st.id shop event today db)

-- availability.sizes.get(size)
abbrev pub is_marked : Text → List (Text × Bool) → Bool
is_marked size [] = false
is_marked size ((s, free) ∷ rest) = if text_eq s size then free else is_marked size rest

abbrev pub first_free : List (Text × Bool) → Option Text
first_free [] = none
first_free ((s, free) ∷ rest) = if free then some s else first_free rest

abbrev pub wanted_in : List Text → Option Text → Option Text
wanted_in sizes none = none
wanted_in sizes (some s) = if any (λ t. text_eq t s) sizes then some s else none

abbrev pub wanted_free : List (Text × Bool) → Option Text → Option Text
wanted_free marks none = first_free marks
wanted_free marks (some s) =
    if not (is_empty s) && is_marked s marks then some s else first_free marks

-- `_pick_size`
unfoldable pub pick_size : List Text → Option Text → Option StyleAvailability → Option Text
pick_size sizes wanted none = wanted_in sizes wanted
pick_size sizes wanted (some a) = wanted_free a.sizes wanted

-- What the form answers: the page of the shop for a robot, the page of the dress with a message, a 404,
-- or the page of the request; an exception that nothing handles.
pub data FormReply : Type 0 where
  to_shop too_many_requests incomplete_form wrong_phone unavailable no_such_page : FormReply
  wrong_dates : DateCode → FormReply
  to_request : Text → FormReply
  uncaught : Error → FormReply

-- the handlers of `create_request`
abbrev pub refusal : Error → FormReply
refusal invalid_phone = wrong_phone
refusal (invalid_dates code) = wrong_dates code
refusal no_availability = unavailable
refusal not_bookable = no_such_page
refusal e = uncaught e

-- commit and record, or roll back
-- As in `Server`, what other transactions commit while a request fails is taken to follow it.
abbrev pub finish :
    Db → RateLimiter → Text → ℕ → Result Error Booking × Db → FormReply × Db × RateLimiter
finish db l ip now (ok b, d) = (to_request b.ref, d, record_event l ip now)
finish db l ip now (err e, d) = (refusal e, restore db d, l)

-- The fields of the form, where they are valid, and the honeypot.
pub record RequestForm : Type 0 where
  pub website : Text
  pub parsed : Option RentalRequest

abbrev pub submit :
    Host
    → Rivals
    → (today max_attempts : ℕ) → ℕ
    → Text
    → ℕ
    → Option RentalRequest
    → RateLimiter
    → Db
    → FormReply × Db × RateLimiter
submit host rivals today n style_id ip now none l db = (incomplete_form, db, l)
submit host rivals today n style_id ip now (some req) l db =
    finish db l ip now (create_request host rivals (record req { style_id = style_id }) today n db)

-- The checks of the form before it is read: the field that only robots fill in, and the limiter.
abbrev pub checked :
    Bool × RateLimiter
    → RequestForm
    → (RateLimiter → FormReply × Db × RateLimiter)
    → RateLimiter
    → Db
    → FormReply × Db × RateLimiter
checked (full, trimmed) form rest l db =
    if not (is_empty form.website)
    then (to_shop, db, l)
    else if full
    then (too_many_requests, db, trimmed)
    else rest trimmed

abbrev pub for_style :
    Option Style
    → (Style → FormReply × Db × RateLimiter)
    → RateLimiter
    → Db
    → FormReply × Db × RateLimiter
for_style none rest l db = (no_such_page, db, l)
for_style (some st) rest l db = rest st

abbrev pub style_at : Option Shop → Text → Db → Option Style
style_at none code db = none
style_at (some shop) code db = style_page shop code db

-- `request_dress`; `ip` is the address of the client and `now` the clock of the limiter.
unfoldable pub request_dress :
    Host
    → Rivals
    → (today max_attempts : ℕ) → (slug code : Text) → RequestForm
    → (ip : Text) → (now : ℕ) → RateLimiter
    → Db
    → FormReply × Db × RateLimiter
request_dress host rivals today n slug code form ip now l db =
    for_style (style_at (shop_page slug db) code db)
      (λ st.
        checked (blocked l ip now) form
          (λ trimmed. submit host rivals today n st.id ip now form.parsed trimmed db) l db)
      l db
