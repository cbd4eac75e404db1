-- ===== src/Exclusion/Walkin.antt =====
-- `create_staff_booking` under the exclusion constraint.
use twirl.Prelude.{ℕ, Bool, List, [], ◌∷◌, Text}
use twirl.Exec.Keeps.{Keeps, Keeps-bind, Keeps-pure}
use twirl.Host.{Host}
use twirl.Model.{Booking, BookingStatus, Actor, Item, Shop, pending_shop}
use twirl.Staff.{
  StaffBooking, put_at_risk, displace_as, displace, displace_all, override, clear_way,
  write_staff_booking, hand_over, create_staff_booking,
}
use twirl.Exclusion.Steps.{steps}
use twirl.Exclusion.Writes.{IsExclusive}

put_at_risk-IsExclusive :
    (host : Host) (a : Actor) (r : Text) (id : ℕ) → Keeps IsExclusive (put_at_risk host a r id)
unfolding put_at_risk
put_at_risk-IsExclusive host a r id = search steps

displace_as-IsExclusive :
    (host : Host) (a : Actor) (r : Text) (c : Booking) (s : BookingStatus)
    → Keeps IsExclusive (displace_as host a r c s)
unfolding displace_as
displace_as-IsExclusive host a r c pending_shop = search steps
displace_as-IsExclusive host a r c _ = put_at_risk-IsExclusive host a r c.id

displace_all-IsExclusive :
    (host : Host) (a : Actor) (r : Text) (cs : List Booking)
    → Keeps IsExclusive (displace_all host a r cs)
unfolding displace_all displace
displace_all-IsExclusive host a r [] = Keeps-pure tt
displace_all-IsExclusive host a r (c ∷ cs) =
    Keeps-bind _ _ (displace_as-IsExclusive host a r c c.status)
      λ _. displace_all-IsExclusive host a r cs

override-IsExclusive :
    (host : Host) (a : Actor) (r : Text) (cs : List Booking)
    → Keeps IsExclusive (override host a r cs)
unfolding override
override-IsExclusive host a r cs = search (steps, displace_all-IsExclusive)

clear_way-IsExclusive :
    (host : Host) (a : Actor) (r : Text) (cs : List Booking)
    → Keeps IsExclusive (clear_way host a r cs)
unfolding clear_way
clear_way-IsExclusive host a r [] = Keeps-pure tt
clear_way-IsExclusive host a r (c ∷ cs) = override-IsExclusive host a r (c ∷ cs)

write_staff_booking-IsExclusive :
    (host : Host) (r : StaffBooking) (s : Shop) (i : Item) (p : Text) (b e : ℕ)
    → Keeps IsExclusive (write_staff_booking host r s i p b e)
unfolding write_staff_booking
write_staff_booking-IsExclusive host r s i p b e = search steps depth 9

hand_over-IsExclusive : (f : Bool) (a : Actor) (b : Booking) → Keeps IsExclusive (hand_over f a b)
unfolding hand_over
hand_over-IsExclusive f a b = search steps

pub create_staff_booking-IsExclusive :
    (host : Host) (r : StaffBooking) → Keeps IsExclusive (create_staff_booking host r)
unfolding create_staff_booking
create_staff_booking-IsExclusive host r =
    search (steps, clear_way-IsExclusive, write_staff_booking-IsExclusive, hand_over-IsExclusive)
      depth 9
