-- ===== src/Notify/Templates/Rendered.antt =====
-- notify/payloads.py and notify/templates.py: the keys that the templates read.
use twirl.Prelude.{Bool, true, false, ◌≡◌, refl, [], ◌∷◌, ◌++◌, Text, codes, text_eq}
use twirl.Exec.{Result, ok, err, and_then}
use twirl.Errors.{Error}
use twirl.Host.{Host}
use twirl.Model.{
  Db, Booking, new_request_shop, new_request_admin, booking_at_risk_admin, request_expired_admin,
}
use twirl.Notify.{booking_payload}
use twirl.Notify.Templates.{lookup, is_pending, shop_body, shop_subject, render_parts, render}

abbrev pub succeeds : {A : Type 0} → Result Error A → Bool
succeeds (ok a) = true
succeeds (err e) = false

abbrev pub shop_mail : Host → Booking → Db → Text → Bool → Result Error (Text × Text)
shop_mail host b db base_url pending =
    and_then (render_parts (booking_payload host b db) base_url shop_subject) λ subject.
      and_then (render_parts (booking_payload host b db) base_url (shop_body pending))
        λ body. ok (subject, body)

shop_mail_lem :
    (host : Host) (b : Booking) (db : Db) (base_url : Text) (pending : Bool)
    → succeeds (shop_mail host b db base_url pending) ≡ true
unfolding render_parts booking_payload lookup text_eq
shop_mail_lem host b db base_url true = refl
shop_mail_lem host b db base_url false = refl

-- What the operations enqueue can be sent: the payload of a booking renders in both templates of a new
-- request, with a reason in the one of a booking at risk, and with hours in the one of an expired request,
-- and none raises KeyError.
pub booking_payload-render :
    (host : Host) (b : Booking) (db : Db) (base_url reason hours : Text)
    → let p = booking_payload host b db in
      (succeeds (render new_request_shop p base_url) ≡ true)
      × (succeeds (render new_request_admin p base_url) ≡ true)
      × (succeeds (render booking_at_risk_admin (p ++ (codes "reason", reason) ∷ []) base_url)
          ≡ true)
      × (succeeds (render request_expired_admin (p ++ (codes "hours", hours) ∷ []) base_url) ≡ true)
unfolding render render_parts booking_payload lookup text_eq
booking_payload-render host b db base_url reason hours =
    (shop_mail_lem host b db base_url (is_pending (booking_payload host b db)), refl, refl, refl)
