-- ===== src/Home.antt =====
-- web/pages.py: the home page's query, the filters it makes of it, and the links it offers.
pub mod Links
use twirl.Prelude.{
  ℕ, ◌+◌, ◌*◌, ◌/◌, Bool, true, false, not, ◌&&◌, ◌||◌, Option, none, some, List, [], ◌∷◌, ◌++◌,
  Text, codes, text_eq, is_empty, any, all, leb, ltb, ◌==◌, if◌then◌else◌,
}
use twirl.Exec.{Result, ok, err, and_then}
use twirl.Errors.{Error, value_error}
use twirl.Host.{Host}
use twirl.Model.{Db}
use twirl.Sizes.{are_digits}
use twirl.Onboarding.{category_values, member}
use twirl.Search.Pages.{Filters, Results, search}
use twirl.Search.Options.{size_options, city_options}

-- s.startswith(prefix)
abbrev pub starts_with : Text → Text → Bool
starts_with [] s = true
starts_with (p ∷ prefix) [] = false
starts_with (p ∷ prefix) (c ∷ s) = p == c && starts_with prefix s

abbrev pub is_own_path : Text → Bool
is_own_path t =
    starts_with (codes "/") t && not (starts_with (codes "//") t || starts_with (codes "/\\") t)

unfoldable pub safe_next : Option Text → Text → Text
safe_next none default = default
safe_next (some target) default =
    if not (is_empty target) && is_own_path target then target else default

-- int(s) of digits
unfoldable pub int_of : Host → ℕ → Text → Result Error ℕ
int_of host n [] = ok n
int_of host n (c ∷ s) = elim (host.decimal_of c) [
  | none ↦ err value_error
  | some d ↦ int_of host (n * 10 + d) s
]

-- `_parse_int`: ValueError for a character that counts as a digit and is no decimal one
unfoldable pub parse_int : Host → Option Text → Result Error (Option ℕ)
unfolding int_of
parse_int host none = ok none
parse_int host (some raw) =
    if are_digits host raw then and_then (int_of host 0 raw) (λ n. ok (some n)) else ok none

abbrev pub sorts : List Text
sorts = codes "newest" ∷ codes "price_asc" ∷ codes "price_desc" ∷ []

-- the query of the home page, with its date parsed
pub record Query : Type 0 where
  pub date : Option ℕ
  pub size : Option Text
  pub city : Option Text
  pub category : Option Text
  pub max_euros : Option Text
  pub sort : Option Text
  pub page : Option Text

-- `x if x in options else None`
abbrev pub if_known : Option Text → List Text → Option Text
if_known none options = none
if_known (some t) options = if member t options then some t else none

abbrev pub known_sort : Option Text → Text
known_sort none = codes "newest"
known_sort (some s) = if member s sorts then s else codes "newest"

-- a date from tomorrow on; another one is an error of the form
abbrev pub future_date : Option ℕ → ℕ → Option ℕ
future_date none today = none
future_date (some d) today = if leb d today then none else some d

abbrev pub in_cents : Option ℕ → Option ℕ
in_cents none = none
in_cents (some euros) = if euros == 0 then none else some (euros * 100)

abbrev pub or_first : Option ℕ → ℕ
or_first none = 1
or_first (some n) = if n == 0 then 1 else n

unfoldable pub filters_of : Host → Query → (today : ℕ) → Db → Result Error Filters
filters_of host q today db = and_then (size_options host db) λ sizes.
    and_then (parse_int host q.max_euros) λ euros. and_then (parse_int host q.page) λ page.
      ok (record {
        event_date = future_date q.date today;
        size = if_known q.size sizes;
        city = if_known q.city (city_options host db);
        category = if_known q.category category_values;
        max_price_cents = in_cents euros;
        sort = known_sort q.sort;
        page = or_first page;
      })

-- the filters that `_loosen` may drop
pub data Loosened : Type 0 where
  any_size any_city any_category any_price : Loosened

abbrev pub loosened : Filters → Loosened → Filters
loosened f any_size = record f { size = none; page = 1 }
loosened f any_city = record f { city = none; page = 1 }
loosened f any_category = record f { category = none; page = 1 }
loosened f any_price = record f { max_price_cents = none; page = 1 }

abbrev pub is_truthy : Option Text → Bool
is_truthy none = false
is_truthy (some t) = not (is_empty t)

abbrev pub sets : Filters → Loosened → Bool
sets f any_size = is_truthy f.size
sets f any_city = is_truthy f.city
sets f any_category = is_truthy f.category
sets f any_price = elim f.max_price_cents [ none ↦ false | some n ↦ not (n == 0) ]

-- An option that brings dresses back is offered with their number.
abbrev pub offered_if : Loosened → ℕ → List (Loosened × ℕ) → List (Loosened × ℕ)
offered_if option total rest = if total == 0 then rest else (option, total) ∷ rest

unfoldable pub loosen_each :
    Host → Filters → (today : ℕ) → Db → List Loosened → Result Error (List (Loosened × ℕ))
loosen_each host f today db [] = ok []
loosen_each host f today db (option ∷ options) =
    let rest = loosen_each host f today db options in
    let tried =
      and_then (search host (loosened f option) today db)
        λ r. and_then rest λ others. ok (offered_if option r.total others) in
    if sets f option then tried else rest

-- `_loosen`
unfoldable pub loosen : Host → Filters → (today : ℕ) → Db → Result Error (List (Loosened × ℕ))
unfolding loosen_each
loosen host f today db =
    loosen_each host f today db (any_size ∷ any_city ∷ any_category ∷ any_price ∷ [])
