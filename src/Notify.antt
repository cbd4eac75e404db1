-- ===== src/Notify.antt =====
-- notify/outbox.py and notify/payloads.py: rows for the delivery job to send.
pub mod Templates
use twirl.Prelude.{
  ℕ, suc, Bool, ◌&&◌, Option, none, some, List, [], ◌∷◌, ◌++◌, Text, codes, show, any, find, leb,
  where_, sort_by, ◌==◌,
}
use twirl.Exec.{Exec, pure, gets, ◌>>=◌, ◌>>◌}
use twirl.Errors.{Error}
use twirl.Host.{Host}
use twirl.Model.{
  Db, Booking, Notification, Template, Payload, Channel, email, telegram, queued, User, Shop, Style,
  Item, ShopUser, is_owner, status_value,
}

abbrev pub admin_recipient : Text
admin_recipient = codes "admin"

-- `Template` has only the keys of TEMPLATES, so the KeyError of `enqueue` does not arise.
unfoldable pub enqueue : Channel → Text → Template → Payload → Exec Db Error (Unit {0})
unfolding pure
enqueue channel recipient template payload db =
    let row : Notification = record {
      id = db.notification_seq;
      channel = channel;
      recipient = recipient;
      template = template;
      payload = payload;
      status = queued;
      attempts = 0;
      last_error = [];
      provider_id = none;
      sent_at = none;
    } in
    pure tt (record db {
      notifications = db.notifications ++ row ∷ [];
      notification_seq = suc db.notification_seq;
    })

unfoldable pub notify_admin : Template → Payload → Exec Db Error (Unit {0})
notify_admin template payload = enqueue telegram admin_recipient template payload

-- A user has at most one row in shop_users (its user_id is unique), so the join lists a user once.
abbrev pub owns : ℕ → List ShopUser → User → Bool
owns shop_id links u = any (λ l. l.user_id == u.id && l.shop_id == shop_id && is_owner l.role) links

abbrev pub some_emails : List User → List Text
some_emails [] = []
some_emails (u ∷ us) = elim u.email [ none ↦ some_emails us | some e ↦ e ∷ some_emails us ]

abbrev pub owner_emails : ℕ → Db → List Text
owner_emails shop_id db =
    some_emails (sort_by (λ a b. leb a.id b.id) (where_ (owns shop_id db.shop_users) db.users))

unfoldable pub enqueue_each : List Text → Template → Payload → Exec Db Error (Unit {0})
enqueue_each [] template payload = pure tt
enqueue_each (e ∷ es) template payload =
    enqueue email e template payload >> enqueue_each es template payload

unfoldable pub notify_shop_owners : ℕ → Template → Payload → Exec Db Error (Unit {0})
unfolding enqueue_each
notify_shop_owners shop_id template payload = do
  emails ← gets (owner_emails shop_id)
  enqueue_each emails template payload

-- payloads.py: `fmt_date`
abbrev pub fmt_date : Host → Option ℕ → Text
fmt_date host none = []
fmt_date host (some d) = host.strftime d

-- An attribute of a related row; the foreign keys say that the row is there.
abbrev pub of_row {ℓ} : {A : Type ℓ} → Option A → (A → Text) → Text
of_row none f = []
of_row (some a) f = f a

abbrev pub or_empty : Option Text → Text
or_empty none = []
or_empty (some t) = t

abbrev pub customer_of : Booking → Db → Option User
customer_of b db = elim b.customer_id [ none ↦ none | some id ↦ find (λ u. u.id == id) db.users ]

unfoldable pub booking_payload : Host → Booking → Db → Payload
booking_payload host b db =
    let shop = find (λ (s : Shop). s.id == b.shop_id) db.shops in
    let style = find (λ (s : Style). s.id == b.style_id) db.styles in
    let item = find (λ (i : Item). i.id == b.item_id) db.items in
    let customer = customer_of b db in
    (codes "ref", b.ref)
    ∷ (codes "status", status_value b.status)
    ∷ (codes "shop_name", of_row shop (λ s. s.name))
    ∷ (codes "style_name", of_row style (λ s. s.name))
    ∷ (codes "style_code", of_row style (λ s. s.code))
    ∷ (codes "size", of_row item (λ i. i.size))
    ∷ (codes "item_code", of_row item (λ i. i.code))
    ∷ (codes "event_date", fmt_date host b.event_date)
    ∷ (codes "pickup_date", host.strftime b.pickup_date)
    ∷ (codes "return_date", host.strftime b.return_date)
    ∷ (codes "customer_name", of_row customer (λ u. u.name))
    ∷ (codes "customer_phone", of_row customer (λ u. or_empty u.phone))
    ∷ (codes "path", codes "/shop/bookings/" ++ show b.id)
    ∷ []
