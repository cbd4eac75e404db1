-- ===== src/Onboarding/Blocks.antt =====
-- onboarding.py: `set_price_and_dates` and `publish` under the exclusion constraint.
use twirl.Prelude.{ℕ, Bool, List, [], ◌∷◌}
use twirl.Exec.Keeps.{Keeps, Keeps-pure, Keeps-bind, Keeps-gets}
use twirl.Host.{Host}
use twirl.Model.{Booking, Actor, Item, Shop, Style}
use twirl.Exclusion.Writes.{IsExclusive}
use twirl.Exclusion.Steps.{steps}
use twirl.Exclusion.Staff.{cancel_block-IsExclusive, create_block-IsExclusive}
use twirl.Onboarding.{
  write_style, write_shop, cancel_blocks, create_blocks, reblock_all, reprice, set_price_and_dates,
  put_online, publish,
}

write_style-IsExclusive : (s : Style) → Keeps IsExclusive (write_style s)
unfolding write_style
write_style-IsExclusive s = record { run = λ db h. record { apart = h.apart } }

write_shop-IsExclusive : (s : Shop) → Keeps IsExclusive (write_shop s)
unfolding write_shop
write_shop-IsExclusive s = record { run = λ db h. record { apart = h.apart } }

cancel_blocks-IsExclusive : (bs : List Booking) (a : Actor) → Keeps IsExclusive (cancel_blocks bs a)
unfolding cancel_blocks
cancel_blocks-IsExclusive [] a = Keeps-pure _
cancel_blocks-IsExclusive (b ∷ bs) a =
    Keeps-bind _ _ (cancel_block-IsExclusive b.id a) λ _. cancel_blocks-IsExclusive bs a

create_blocks-IsExclusive :
    (host : Host) (id : ℕ) (rs : List (ℕ × ℕ)) (a : Actor)
    → Keeps IsExclusive (create_blocks host id rs a)
unfolding create_blocks
create_blocks-IsExclusive host id [] a = Keeps-pure _
create_blocks-IsExclusive host id ((s, e) ∷ rs) a =
    Keeps-bind _ _ (create_block-IsExclusive host id s e _ a)
      λ _. create_blocks-IsExclusive host id rs a

reblock_all-IsExclusive :
    (host : Host) (is : List Item) (rs : List (ℕ × ℕ)) (a : Actor)
    → Keeps IsExclusive (reblock_all host is rs a)
unfolding reblock_all
reblock_all-IsExclusive host [] rs a = Keeps-pure _
reblock_all-IsExclusive host (i ∷ is) rs a = Keeps-bind _ _ (Keeps-gets _) λ bs.
    Keeps-bind _ _ (cancel_blocks-IsExclusive bs a) λ _.
      Keeps-bind _ _ (create_blocks-IsExclusive host i.id rs a)
        λ _. reblock_all-IsExclusive host is rs a

reprice-IsExclusive :
    (host : Host) (s : Style) (p : ℕ) (rs : List (ℕ × ℕ)) (a : Actor)
    → Keeps IsExclusive (reprice host s p rs a)
unfolding reprice
reprice-IsExclusive host s p rs a =
    search (steps, write_style-IsExclusive, reblock_all-IsExclusive) depth 8

pub set_price_and_dates-IsExclusive :
    (host : Host) (style_id price_eur : ℕ) (blocked : List ℕ) (a : Actor) (today : ℕ)
    → Keeps IsExclusive (set_price_and_dates host style_id price_eur blocked a today)
unfolding set_price_and_dates
set_price_and_dates-IsExclusive host style_id price_eur blocked a today =
    search (steps, reprice-IsExclusive) depth 8

put_online-IsExclusive :
    (shop : Shop) (style : Style) (now : ℕ) → Keeps IsExclusive (put_online shop style now)
unfolding put_online
put_online-IsExclusive shop style now =
    search (steps, write_style-IsExclusive, write_shop-IsExclusive) depth 8

pub publish-IsExclusive :
    (shop_id style_id : ℕ) (accepted_terms : Bool) (now : ℕ)
    → Keeps IsExclusive (publish shop_id style_id accepted_terms now)
unfolding publish
publish-IsExclusive shop_id style_id accepted_terms now =
    search (steps, put_online-IsExclusive) depth 9
