-- ===== src/Onboarding/Dress.antt =====
-- onboarding.py: `dress_errors`
use twirl.Prelude.{
  ℕ, ◌≤◌, ◌≡◌, ◌↔◌, refl, inl, inr, Bool, true, false, not, List, [], ◌∷◌, ◌++◌, Text, arith, any,
  length, ltb, Bool-cases,
}
use twirl.Errors.{OnboardingCode}
use twirl.Model.{Db, ShopKind, is_individual}
use twirl.Onboarding.{
  photo_count, min_photos, member, category_values, all_sizes, from_keys, when, sizes_wrong,
  dress_errors,
}

-- At least one size, all of them on the list, and one only where the provider is a person.
abbrev pub AreSizes : ShopKind → List Text → Type 0
AreSizes kind sizes =
    (1 ≤ length sizes)
    × (any (λ s. not (member s all_sizes)) sizes ≡ false)
    × (is_individual kind ≡ true → length sizes ≡ 1)

sizes_right :
    (kind : ShopKind) (sizes : List Text) → sizes_wrong kind sizes ≡ false → AreSizes kind sizes
sizes_right kind [] h = cc
sizes_right kind (t ∷ ts) h = (omega arith, ground arith, λ k. ground arith)

sizes_right_back :
    (kind : ShopKind) (sizes : List Text) → AreSizes kind sizes → sizes_wrong kind sizes ≡ false
sizes_right_back kind [] h = absurd (omega (arith, h.0))
sizes_right_back kind (t ∷ ts) h = elim (Bool-cases (is_individual kind)) [
  | inl e ↦ rw (h.1) (rw e (ground (arith, h.2 e)))
  | inr e ↦ rw (h.1) (rw e refl)
]

nothing_listed :
    (a b c : Bool) (x y z : OnboardingCode)
    → (when a x ++ when b y ++ when c z ≡ []) ↔ ((a ≡ false) × (b ≡ false) × (c ≡ false))
nothing_listed true b c x y z = (λ h. cc, λ h. cc)
nothing_listed false true c x y z = (λ h. cc, λ h. cc)
nothing_listed false false true x y z = (λ h. cc, λ h. cc)
nothing_listed false false false x y z = (λ h. (refl, refl, refl), λ h. refl)

-- `dress_errors` lists nothing exactly when the style has three photos, the category is one of the five,
-- and the sizes, each counted once, are on the list, at least one, and exactly one for an individual.
pub dress_errors_iff :
    (style_id : ℕ) (kind : ShopKind) (category : Text) (sizes : List Text) (db : Db)
    → (dress_errors style_id kind category sizes db ≡ []) ↔ (
        (3 ≤ photo_count style_id db)
        × (member category category_values ≡ true)
        × AreSizes kind (from_keys sizes))
unfolding dress_errors
dress_errors_iff style_id kind category sizes db =
    let few = ltb (photo_count style_id db) min_photos in
    let unknown = not (member category category_values) in
    let wrong = sizes_wrong kind (from_keys sizes) in
    let (to, from) =
      nothing_listed few unknown wrong OnboardingCode.photos OnboardingCode.category
        OnboardingCode.sizes in
    (
      λ h.
          let (p, c, s) = to h in
          (ground arith, ground arith, sizes_right kind (from_keys sizes) s),
      λ h.
          from
            (ground (arith, h.0), ground (arith, h.1), sizes_right_back kind (from_keys sizes) h.2),
    )
