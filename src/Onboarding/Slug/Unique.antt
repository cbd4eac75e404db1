-- ===== src/Onboarding/Slug/Unique.antt =====
-- onboarding.py: `unique_slug`
use twirl.Prelude.{
  ℕ, zero, suc, ◌+◌, ◌≤◌, ◌<◌, ◌≡◌, refl, ap, ◌∙◌, ◌⊎◌, inl, inr, true, false, not, ◌||◌, List, [],
  ◌∷◌, ◌++◌, map, Text, show, text_eq, eq_of_text_eq, length, length-map, take, drop, arith,
  Bool-cases, number_from, number_from-show, holds_number, free_number, eq_or_more,
}
use twirl.Host.{Host}
use twirl.Model.{Db, Shop}
use twirl.Onboarding.Slug.{
  slugify, is_valid_slug, reserved_slugs, slug_taken, numbered, try_slugs, unique_slug,
}
use twirl.Onboarding.Slug.Chars.{
  IsBase, ten_to, slugify-IsBase, not_among, has_dash-append, matches_slug-numbered,
}

is_valid_slug-numbered :
    (base : Text) (n : ℕ) → IsBase base → n < ten_to 12 → is_valid_slug (numbered base n) ≡ true
unfolding is_valid_slug
is_valid_slug-numbered base n b h =
    rw
      (
        matches_slug-numbered base n b h,
        not_among (numbered base n) reserved_slugs (has_dash-append (take 46 base) (show n)) refl,
      )
      refl

-- the number of a slug that starts as the numbered ones do
drop-append : (p s : Text) → drop (length p) (p ++ s) ≡ s
drop-append [] s = refl
drop-append (c ∷ p) s = drop-append p s

module _ (base : Text) where
  abbrev number_of : Text → ℕ
  number_of slug = number_from 0 (drop 1 (drop (length (take 46 base)) slug))

  number_of-numbered : (n : ℕ) → number_of (numbered base n) ≡ n
  number_of-numbered n = rw (drop-append (take 46 base) (45 ∷ show n)) (number_from-show n)

  numbered-free :
      (n : ℕ) (shops : List Shop)
      → holds_number n (map (λ (s : Shop). number_of s.slug) shops) ≡ false
      → slug_taken (numbered base n) shops ≡ false
  numbered-free n [] h = refl
  numbered-free n (s ∷ shops) h = elim (Bool-cases (text_eq s.slug (numbered base n))) [
    | inl e ↦
        let same = ap number_of (eq_of_text_eq s.slug (numbered base n) e) ∙ number_of-numbered n in
        absurd (ground (arith, same, h))
    | inr e ↦ rw e (numbered-free n shops (ground (arith, h)))
  ]

  -- A slug that may be stored.
  abbrev IsNewSlug : Text → List Shop → Type 0
  IsNewSlug slug shops = (is_valid_slug slug ≡ true) × (slug_taken slug shops ≡ false)

  try_slugs-IsNewSlug :
      (candidate : Text) (n rounds m : ℕ) (shops : List Shop)
      → IsNewSlug (numbered base m) shops
      → (candidate ≡ numbered base m) ⊎ ((n ≤ m) × (m + 1 ≤ n + rounds))
      → IsNewSlug (try_slugs base candidate n rounds shops) shops
  unfolding try_slugs
  try_slugs-IsNewSlug candidate n zero m shops good (inl e) = rw e good
  try_slugs-IsNewSlug candidate n zero m shops good (inr (l, h)) = absurd (omega arith)
  try_slugs-IsNewSlug candidate n (suc rounds) m shops good later =
      elim (Bool-cases (not (is_valid_slug candidate) || slug_taken candidate shops)) [
        | inr e ↦ rw e (ground (arith, e), ground (arith, e))
        | inl e ↦ rw e (elim later [
          | inl same ↦ absurd (ground (arith, same, good, e))
          | inr (l, h) ↦
              try_slugs-IsNewSlug (numbered base n) (n + 1) rounds m shops good
                (next_candidate n rounds m l h)
        ])
      ]
    where
      next_candidate :
          (n rounds m : ℕ)
          → n ≤ m
          → m + 1 ≤ n + suc rounds
          → (numbered base n ≡ numbered base m) ⊎ ((n + 1 ≤ m) × (m + 1 ≤ n + 1 + rounds))
      next_candidate n rounds m l h = elim (eq_or_more n m l) [
        | inl e ↦ inl (ap (numbered base) e)
        | inr k ↦ inr (k, omega arith)
      ]

-- `unique_slug` ends with a slug that the routes accept and no shop has, whatever the name, as long as
-- there are fewer than a million million shops.
pub unique_slug-IsNewSlug :
    (host : Host) (name : Text) (db : Db)
    → length db.shops < 1000000000000
    → (is_valid_slug (unique_slug host name db) ≡ true)
      × (slug_taken (unique_slug host name db) db.shops ≡ false)
unfolding unique_slug
unique_slug-IsNewSlug host name db few =
    let base = slugify host name in
    let (m, low, high, out) =
      free_number (length db.shops) 2 (map (λ (s : Shop). number_of base s.slug) db.shops)
        (omega (arith, length-map (λ (s : Shop). number_of base s.slug) db.shops)) in
    try_slugs-IsNewSlug base base 2 (length db.shops + 1) m db.shops
      (
        is_valid_slug-numbered base m (slugify-IsBase host name) (omega arith),
        numbered-free base m db.shops out,
      )
      (inr (low, omega arith))
