-- ===== src/Tests/Backoffice.antt =====
-- web/shop_catalog.py and auth/deps.py on the sample shop.
use twirl.Prelude.{
  inl, inr, arith, strip, ℕ, ◌≡◌, refl, true, false, some, none, [], ◌∷◌, Option, List, Text, codes,
  map,
}
use twirl.Exec.{Result, ok, err}
use twirl.Exec.Holds.{Ends}
use twirl.Model.{Db, Style, Item, ShopRole}
use twirl.Backoffice.People.{Denied, ShopContext, login_required, missing, require_shop}
use twirl.Backoffice.{StyleForm, Request, edit_style, reopening, handle, serve}
use twirl.Backoffice.Allowed.{IsServedTo, Reaches, Kept, handle-IsServedTo}
use twirl.Backoffice.Isolated.{IsUntouched}
use twirl.Backoffice.Tenants.{Unique, handle-IsUntouched}
use twirl.Tests.Data.{sample_shop, sample_style, sample_owner, sample_host, sample_db}

abbrev new_form : StyleForm
new_form = record {
  name = codes " Luna ";
  price_cents = 12000;
  description = [];
  occasion_tags = [];
  colour_family = none;
  length = none;
  stretch = false;
  adjustable_back = false;
  published = true;
}

abbrev edit_first : Request
edit_first = edit_style 1 new_form

abbrev answer_of : Option ℕ → Request → Result Denied (Unit {0})
answer_of user_id req = let (r, d) = handle sample_host 0 user_id req sample_db in r

abbrev names_after : Option ℕ → Request → List Text
names_after user_id req =
    let (r, d) = handle sample_host 0 user_id req sample_db in
    map (λ (st : Style). st.name) d.styles

edited_by_owner : names_after (some 2) edit_first ≡ codes "Luna" ∷ []
unfolding handle serve require_shop strip
edited_by_owner = refl

edited_by_nobody : answer_of none edit_first ≡ err login_required
unfolding handle serve require_shop
edited_by_nobody = refl

no_closure : answer_of (some 2) (reopening 1) ≡ err missing
unfolding handle serve require_shop
no_closure = refl

handle-IsServedTo_example :
    Ends
      (λ _ d.
        (ctx : ShopContext) × IsServedTo (some 2) edit_first sample_db ctx
        × Reaches ctx edit_first sample_db)
      (Kept sample_db)
      (handle sample_host 0 (some 2) edit_first sample_db)
handle-IsServedTo_example = handle-IsServedTo sample_host 0 (some 2) edit_first sample_db

-- the style and the item of another shop beside those of the sample
abbrev other_style : Style
other_style = record sample_style { id = 2; shop_id = 2 }

abbrev two_shops : Db
two_shops = record sample_db { styles = sample_style ∷ other_style ∷ [] }

two_styles : Unique (λ (s : Style). s.id) (sample_style ∷ other_style ∷ [])
two_styles x y (inl p) (inl q) e = cc
two_styles x y (inl p) (inr (inl q)) e = absurd (ground (arith, p, q, e))
two_styles x y (inr (inl p)) (inl q) e = absurd (ground (arith, p, q, e))
two_styles x y (inr (inl p)) (inr (inl q)) e = cc
two_styles x y (inr (inr p)) j e = elim p [ ]
two_styles x y i (inr (inr q)) e = elim q [ ]

two_items : Unique (λ (i : Item). i.id) two_shops.items
two_items x y (inl p) (inl q) e = cc
two_items x y (inl p) (inr (inl q)) e = absurd (ground (arith, p, q, e))
two_items x y (inr (inl p)) (inl q) e = absurd (ground (arith, p, q, e))
two_items x y (inr (inl p)) (inr (inl q)) e = cc
two_items x y (inr (inr p)) j e = elim p [ ]
two_items x y i (inr (inr q)) e = elim q [ ]

abbrev owner_context : ShopContext
owner_context = record { user = sample_owner; shop = sample_shop; role = ShopRole.owner }

owner_found : require_shop (some 2) two_shops ≡ ok owner_context
unfolding require_shop
owner_found = refl

handle-IsUntouched_example :
    IsUntouched 1 two_shops (handle sample_host 0 (some 2) edit_first two_shops).1
handle-IsUntouched_example =
    handle-IsUntouched sample_host 0 (some 2) edit_first two_shops owner_context owner_found
      two_styles two_items
