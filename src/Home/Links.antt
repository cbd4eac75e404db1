-- ===== src/Home/Links.antt =====
-- web/pages.py: `safe_next` and `_loosen`
use twirl.Prelude.{
  ℕ, ◌<◌, ◌≡◌, ◌≢◌, refl, ap, sym, subst, ◌⊎◌, inl, inr, true, false, not, ◌&&◌, Option, none, some,
  List, [], ◌∷◌, Text, is_empty, Bool-cases, arith, In, ◌==◌,
}
use twirl.Exec.{Result, ok, Result-cases}
use twirl.Errors.{Error}
use twirl.Host.{Host}
use twirl.Model.{Db}
use twirl.Search.Pages.{Filters, Results, search}
use twirl.Home.{
  is_truthy, is_own_path, safe_next, Loosened, loosened, sets, offered_if, loosen_each, loosen,
  any_size, any_city, any_category, any_price,
}

-- A filter that the option would drop is set: to a text that is not empty, or to a price above zero.
abbrev pub IsChosen : Filters → Loosened → Type 0
IsChosen f any_size = (t : Text) × (f.size ≡ some t) × (t ≢ [])
IsChosen f any_city = (t : Text) × (f.city ≡ some t) × (t ≢ [])
IsChosen f any_category = (t : Text) × (f.category ≡ some t) × (t ≢ [])
IsChosen f any_price = (n : ℕ) × (f.max_price_cents ≡ some n) × (0 < n)

-- The search that the option leads to: its first page, without that filter, and with all the others.
abbrev pub IsWithout : Filters → Loosened → Filters → Type 0
IsWithout f any_size g = g ≡ record f { size = none; page = 1 }
IsWithout f any_city g = g ≡ record f { city = none; page = 1 }
IsWithout f any_category g = g ≡ record f { category = none; page = 1 }
IsWithout f any_price g = g ≡ record f { max_price_cents = none; page = 1 }

truthy_lem : (o : Option Text) → is_truthy o ≡ true → (t : Text) × (o ≡ some t) × (t ≢ [])
truthy_lem none h = cc
truthy_lem (some []) h = cc
truthy_lem (some (c ∷ s)) h = (c ∷ s, refl, λ e. cc)

positive_lem :
    (o : Option ℕ)
    → elim o [ none ↦ false | some n ↦ not (n == 0) ] ≡ true
    → (n : ℕ) × (o ≡ some n) × (0 < n)
positive_lem none h = cc
positive_lem (some n) h = (n, refl, ground (arith, h))

sets-IsChosen : (f : Filters) (o : Loosened) → sets f o ≡ true → IsChosen f o
sets-IsChosen f any_size h = truthy_lem f.size h
sets-IsChosen f any_city h = truthy_lem f.city h
sets-IsChosen f any_category h = truthy_lem f.category h
sets-IsChosen f any_price h = positive_lem f.max_price_cents h

loosened-IsWithout : (f : Filters) (o : Loosened) → IsWithout f o (loosened f o)
loosened-IsWithout f any_size = refl
loosened-IsWithout f any_city = refl
loosened-IsWithout f any_category = refl
loosened-IsWithout f any_price = refl

module _ (host : Host) (f : Filters) (today : ℕ) (db : Db) where
  -- An option that brings dresses back.
  pub record IsWorth (option : Loosened) (total : ℕ) : Type 0 where
    pub set : IsChosen f option
    pub filters : Filters
    pub without : IsWithout f option filters
    pub results : Results
    pub searched : search host filters today db ≡ ok results
    pub count : results.total ≡ total
    pub some_left : 0 < total

  -- what an option that stands in the list says
  offered_parts :
      (a o : Loosened) (t n : ℕ) (rest : List (Loosened × ℕ))
      → In (o, t) (offered_if a n rest)
      → ((o ≡ a) × (t ≡ n) × (0 < n)) ⊎ In (o, t) rest
  offered_parts a o t n rest h = elim (Bool-cases (n == 0)) [
    | inl e ↦ inr (rw e at h)
    | inr e ↦ first_or (rw e at h) e
  ]
    where
      first_or :
          In (o, t) ((a, n) ∷ rest)
          → (n == 0) ≡ false
          → ((o ≡ a) × (t ≡ n) × (0 < n)) ⊎ In (o, t) rest
      first_or (inl same) e = inl (
        ap (λ (p : Loosened × ℕ). p.0) same,
        ap (λ (p : Loosened × ℕ). p.1) same,
        ground (arith, e),
      )
      first_or (inr i) e = inr i

  results_are :
      {a b : List (Loosened × ℕ)}
      → ◌≡◌ {A = Result Error (List (Loosened × ℕ))} (ok a) (ok b)
      → a ≡ b
  results_are h = cc

  loosen_each-IsWorth :
      (options : List Loosened) (found : List (Loosened × ℕ)) (o : Loosened) (t : ℕ)
      → loosen_each host f today db options ≡ ok found
      → In (o, t) found
      → IsWorth o t
  unfolding loosen_each
  loosen_each-IsWorth [] found o t h i =
      elim (subst (λ (l : List (Loosened × ℕ)). In (o, t) l) (sym (results_are h)) i) [ ]
  loosen_each-IsWorth (a ∷ options) found o t h i = elim (Bool-cases (sets f a)) [
    | inr e ↦ loosen_each-IsWorth options found o t (rw e at h) i
    | inl e ↦ elim (Result-cases (search host (loosened f a) today db)) [
      | inl (r, s) ↦ elim (Result-cases (loosen_each host f today db options)) [
        | inl (others, k) ↦
            elim (offered_parts a o t r.total others (
              subst (λ (l : List (Loosened × ℕ)). In (o, t) l)
                (sym (results_are (rw (e, s, k) at h))) i)) [
                  | inl (same, total, more) ↦
                      rw (same, total)
                        (record {
                          set = sets-IsChosen f a e;
                          filters = loosened f a;
                          without = loosened-IsWithout f a;
                          results = r;
                          searched = s;
                          count = refl;
                          some_left = more;
                        })
                  | inr j ↦ loosen_each-IsWorth options others o t k j
                ]
        | inr (x, k) ↦ absurd (ground (arith, rw (e, s, k) at h))
      ]
      | inr (x, s) ↦ absurd (ground (arith, rw (e, s) at h))
    ]
  ]

  -- Each filter that the empty page offers to drop is one that was set, and the search without that filter
  -- and with all the others finds as many dresses as the link says, at least one.
  pub loosen-IsWorth :
      (found : List (Loosened × ℕ)) (o : Loosened) (t : ℕ)
      → loosen host f today db ≡ ok found
      → In (o, t) found
      → IsWorth o t
  unfolding loosen
  loosen-IsWorth found o t h i =
      loosen_each-IsWorth (any_size ∷ any_city ∷ any_category ∷ any_price ∷ []) found o t h i

-- A path of the site itself: one slash, and then neither a slash nor a backslash.
abbrev pub IsOwnPath : Text → Type 0
IsOwnPath [] = ⊥
IsOwnPath (c ∷ []) = c ≡ 47
IsOwnPath (c ∷ d ∷ s) = (c ≡ 47) × (d ≢ 47) × (d ≢ 92)

own_path : (t : Text) → is_own_path t ≡ true → IsOwnPath t
own_path [] h = cc
own_path (c ∷ []) h = ground (arith, h)
own_path (c ∷ d ∷ s) h = (ground (arith, h), ground (arith, h), ground (arith, h))

-- Wherever a form or a link says to go next, `safe_next` leads to a path of the site itself, given that
-- the default is one.
pub safe_next-IsOwnPath :
    (target : Option Text) (default : Text)
    → IsOwnPath default
    → IsOwnPath (safe_next target default)
unfolding safe_next
safe_next-IsOwnPath none default own = own
safe_next-IsOwnPath (some t) default own = elim (Bool-cases (not (is_empty t) && is_own_path t)) [
  | inl e ↦ rw e (own_path t (ground (arith, e)))
  | inr e ↦ rw e own
]
