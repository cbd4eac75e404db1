-- ===== src/Exclusion/Staff.antt =====
-- The operations of booking/staff.py under the exclusion constraint.
use twirl.Prelude.{ℕ, Bool, List, [], ◌∷◌, Text}
use twirl.Exec.{Exec}
use twirl.Exec.Keeps.{Keeps, Keeps-raise}
use twirl.Errors.{Error}
use twirl.Host.{Host}
use twirl.Model.{Db, Booking, Actor, Item, ItemStatus}
use twirl.Staff.{
  accept, decline, cancel_by_shop, mark_picked_up, mark_no_show, complete, mark_returned,
  cancel_block, insert_block, unless_taken, create_block, write_item_status, set_item_status,
  swap_candidates, write_swap, swap_item,
}
use twirl.Exclusion.Steps.{steps}
use twirl.Exclusion.Writes.{IsExclusive}

pub accept-IsExclusive : (id : ℕ) (a : Actor) → Keeps IsExclusive (accept id a)
unfolding accept
accept-IsExclusive id a = search steps

pub decline-IsExclusive : (id : ℕ) (a : Actor) (r : Text) → Keeps IsExclusive (decline id a r)
unfolding decline
decline-IsExclusive id a r = search steps

pub cancel_by_shop-IsExclusive :
    (id : ℕ) (a : Actor) (r : Text) → Keeps IsExclusive (cancel_by_shop id a r)
unfolding cancel_by_shop
cancel_by_shop-IsExclusive id a r = search steps

pub mark_picked_up-IsExclusive : (id : ℕ) (a : Actor) → Keeps IsExclusive (mark_picked_up id a)
unfolding mark_picked_up
mark_picked_up-IsExclusive id a = search steps

pub mark_no_show-IsExclusive : (id : ℕ) (a : Actor) → Keeps IsExclusive (mark_no_show id a)
unfolding mark_no_show
mark_no_show-IsExclusive id a = search steps

complete-IsExclusive :
    (id : ℕ) (a : Actor) (f : Bool) (n : Text) → Keeps IsExclusive (complete id a f n)
unfolding complete
complete-IsExclusive id a f n = search steps

pub mark_returned-IsExclusive :
    (id : ℕ) (a : Actor) (f : Bool) (n : Text) → Keeps IsExclusive (mark_returned id a f n)
unfolding mark_returned
mark_returned-IsExclusive id a f n = search (steps, complete-IsExclusive)

pub cancel_block-IsExclusive : (id : ℕ) (a : Actor) → Keeps IsExclusive (cancel_block id a)
unfolding cancel_block
cancel_block-IsExclusive id a = search steps

insert_block-IsExclusive :
    (host : Host) (item : Item) (s e : ℕ) (r : Text) (a : Actor)
    → Keeps IsExclusive (insert_block host item s e r a)
unfolding insert_block
insert_block-IsExclusive host item s e r a = search steps

unless_taken-IsExclusive :
    (conflicts : List Booking) (m : Exec Db Error Booking)
    → Keeps IsExclusive m
    → Keeps IsExclusive (unless_taken conflicts m)
unfolding unless_taken
unless_taken-IsExclusive [] m k = k
unless_taken-IsExclusive (c ∷ cs) m k = Keeps-raise _

pub create_block-IsExclusive :
    (host : Host) (i s e : ℕ) (r : Text) (a : Actor)
    → Keeps IsExclusive (create_block host i s e r a)
unfolding create_block
create_block-IsExclusive host i s e r a =
    search (steps, insert_block-IsExclusive, unless_taken-IsExclusive) depth 8

write_item_status-IsExclusive :
    (id : ℕ) (st : ItemStatus) → Keeps IsExclusive (write_item_status id st)
unfolding write_item_status
write_item_status-IsExclusive id st = record { run = λ db h. record { apart = h.apart } }

pub set_item_status-IsExclusive :
    (id : ℕ) (st : ItemStatus) (a : Actor) (today : ℕ) (n : Text)
    → Keeps IsExclusive (set_item_status id st a today n)
unfolding set_item_status
set_item_status-IsExclusive id st a today n = search (steps, write_item_status-IsExclusive) depth 8

pub swap_candidates-IsExclusive : (id limit : ℕ) → Keeps IsExclusive (swap_candidates id limit)
unfolding swap_candidates
swap_candidates-IsExclusive id limit = search steps depth 8

write_swap-IsExclusive :
    (b : Booking) (old new : Item) (a : Actor) → Keeps IsExclusive (write_swap b old new a)
unfolding write_swap
write_swap-IsExclusive b old new a = search steps depth 8

pub swap_item-IsExclusive : (b i : ℕ) (a : Actor) → Keeps IsExclusive (swap_item b i a)
unfolding swap_item
swap_item-IsExclusive b i a = search (steps, write_swap-IsExclusive) depth 8
