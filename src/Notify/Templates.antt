-- ===== src/Notify/Templates.antt =====
-- notify/templates.py: the texts of the notifications, as lists of parts.
pub mod Rendered
use twirl.Prelude.{
  ℕ, Bool, true, false, ◌≡◌, refl, ◌⊎◌, inl, inr, Option, none, some, List, [], ◌∷◌, ◌++◌, Text,
  codes, text_eq, show, find, arith, if◌then◌else◌, Bool-cases,
}
use twirl.Exec.{Result, ok, err, and_then}
use twirl.Errors.{Error, key_error}
use twirl.Host.{Host}
use twirl.Model.{
  Db, Booking, Template, Payload, new_request_shop, new_request_admin, booking_at_risk_admin,
  request_expired_admin, provider_published_admin, provider_signed_up_admin,
}
use twirl.Notify.{booking_payload}

-- What an f-string is made of: text, `p[key]`, `p.get(key, "")`, and `base_url`.
pub data Part : Type 0 where
  lit must may : Text → Part
  base : Part

unfoldable pub lookup : Text → Payload → Option Text
lookup key [] = none
lookup key ((k, v) ∷ payload) =
    let rest = lookup key payload in if text_eq k key then some v else rest

abbrev pub required : Option Text → Result Error Text
required none = err key_error
required (some v) = ok v

abbrev pub optional : Option Text → Text
optional none = []
optional (some v) = v

abbrev pub render_part : Payload → Text → Part → Result Error Text
render_part p base_url (lit text) = ok text
render_part p base_url (must key) = required (lookup key p)
render_part p base_url (may key) = ok (optional (lookup key p))
render_part p base_url base = ok base_url

unfoldable pub render_parts : Payload → Text → List Part → Result Error Text
render_parts p base_url [] = ok []
render_parts p base_url (part ∷ parts) =
    and_then (render_part p base_url part)
      λ text. and_then (render_parts p base_url parts) λ rest. ok (text ++ rest)

abbrev pub newline : Part
newline = lit (10 ∷ [])

-- `p.get("status") == "pending_shop"`
abbrev pub is_pending : Payload → Bool
is_pending p = text_eq (optional (lookup (codes "status") p)) (codes "pending_shop")

abbrev pub shop_subject : List Part
shop_subject =
    lit (codes "Kërkesë e re: ")
    ∷ must (codes "style_name")
    ∷ lit (codes ", masa ")
    ∷ must (codes "size")
    ∷ lit (codes " (")
    ∷ must (codes "ref")
    ∷ lit (codes ")")
    ∷ []

abbrev pub shop_opening : Bool → Text
shop_opening true = codes "Keni një kërkesë të re për rezervim në Vesha."
shop_opening false = codes "Keni një rezervim të ri në Vesha."

abbrev pub shop_ending : Bool → List Part
shop_ending true =
    newline
    ∷ lit (codes "Nëse nuk përgjigjeni brenda 24 orësh, kërkesa anulohet automatikisht.")
    ∷ []
shop_ending false = []

abbrev pub shop_body : Bool → List Part
shop_body pending =
    lit (shop_opening pending)
    ∷ newline
    ∷ newline
    ∷ lit (codes "Fustani: ")
    ∷ must (codes "style_name")
    ∷ lit (codes " (")
    ∷ must (codes "style_code")
    ∷ lit (codes "), masa ")
    ∷ must (codes "size")
    ∷ lit (codes ", kodi ")
    ∷ must (codes "item_code")
    ∷ newline
    ∷ lit (codes "Data e eventit: ")
    ∷ must (codes "event_date")
    ∷ newline
    ∷ lit (codes "Marrja: ")
    ∷ must (codes "pickup_date")
    ∷ lit (codes " · Kthimi: ")
    ∷ must (codes "return_date")
    ∷ newline
    ∷ lit (codes "Klienti: ")
    ∷ must (codes "customer_name")
    ∷ lit (codes ", ")
    ∷ must (codes "customer_phone")
    ∷ newline
    ∷ lit (codes "Kodi i rezervimit: ")
    ∷ must (codes "ref")
    ∷ newline
    ∷ newline
    ∷ lit (codes "Hapeni këtu: ")
    ∷ base
    ∷ must (codes "path")
    ∷ shop_ending pending

abbrev pub search_link : List Part
search_link = base ∷ lit (codes "/admin/booking/list?search=") ∷ must (codes "ref") ∷ []

abbrev pub admin_body : List Part
admin_body =
    lit (codes "New ")
    ∷ must (codes "status")
    ∷ lit (codes " booking ")
    ∷ must (codes "ref")
    ∷ lit (codes " at ")
    ∷ must (codes "shop_name")
    ∷ lit (codes ": ")
    ∷ must (codes "style_name")
    ∷ lit (codes " size ")
    ∷ must (codes "size")
    ∷ lit (codes ", event ")
    ∷ must (codes "event_date")
    ∷ lit (codes ". ")
    ∷ search_link

abbrev pub at_risk_body : List Part
at_risk_body =
    lit (codes "AT RISK ")
    ∷ must (codes "ref")
    ∷ lit (codes " at ")
    ∷ must (codes "shop_name")
    ∷ lit (codes ": dress ")
    ∷ must (codes "item_code")
    ∷ lit (codes " (")
    ∷ must (codes "style_name")
    ∷ lit (codes " ")
    ∷ must (codes "size")
    ∷ lit (codes ") was taken in store. Reason: ")
    ∷ must (codes "reason")
    ∷ lit (codes ". Renter: ")
    ∷ must (codes "customer_name")
    ∷ lit (codes " ")
    ∷ must (codes "customer_phone")
    ∷ lit (codes ". ")
    ∷ search_link

abbrev pub expired_body : List Part
expired_body =
    lit (codes "Request ")
    ∷ must (codes "ref")
    ∷ lit (codes " at ")
    ∷ must (codes "shop_name")
    ∷ lit (codes " was auto-cancelled after ")
    ∷ must (codes "hours")
    ∷ lit (codes " h with no reply. Renter: ")
    ∷ must (codes "customer_name")
    ∷ lit (codes " ")
    ∷ must (codes "customer_phone")
    ∷ lit (codes ".")
    ∷ []

abbrev pub published_body : List Part
published_body =
    lit (codes "New listing: ")
    ∷ may (codes "style_name")
    ∷ lit (codes " by ")
    ∷ may (codes "shop_name")
    ∷ lit (codes " (")
    ∷ may (codes "kind")
    ∷ lit (codes ", ")
    ∷ may (codes "city")
    ∷ lit (codes "). ")
    ∷ base
    ∷ may (codes "path")
    ∷ []

abbrev pub signed_up_body : List Part
signed_up_body =
    lit (codes "New sign-up: ")
    ∷ may (codes "shop_name")
    ∷ lit (codes " (")
    ∷ may (codes "kind")
    ∷ lit (codes ", ")
    ∷ may (codes "city")
    ∷ lit (codes "), phone ")
    ∷ may (codes "phone")
    ∷ lit (codes ". No listing yet.")
    ∷ []

abbrev pub subject_parts : Template → List Part
subject_parts new_request_shop = shop_subject
subject_parts _ = []

abbrev pub body_parts : Template → Payload → List Part
body_parts new_request_shop p = shop_body (is_pending p)
body_parts new_request_admin p = admin_body
body_parts booking_at_risk_admin p = at_risk_body
body_parts request_expired_admin p = expired_body
body_parts provider_published_admin p = published_body
body_parts provider_signed_up_admin p = signed_up_body

-- `render`: the subject and the body
unfoldable pub render : Template → Payload → Text → Result Error (Text × Text)
render template p base_url =
    and_then (render_parts p base_url (subject_parts template)) λ subject.
      and_then (render_parts p base_url (body_parts template p)) λ body. ok (subject, body)
