-- ===== src/Onboarding/Slug/Chars.antt =====
-- onboarding.py: the characters that `slugify` leaves, and those of its numbered candidates.
use twirl.Prelude.{
  ℕ, zero, suc, ◌+◌, ◌*◌, ◌≤◌, ◌<◌, ◌≡◌, refl, ap, inl, inr, Bool, true, false, not, List, [], ◌∷◌,
  ◌++◌, map, Text, show, decimal, ◌/◌, ◌%◌, text_eq, eq_of_text_eq, length, length-append,
  length-take_le, take, any, all, where_, ltb, leb, ◌==◌, arith, Bool-cases,
}
use twirl.Host.{Host}
use twirl.Onboarding.Slug.{
  is_word, is_slug_char, dashed, lstrip_dash, rstrip_dash, slug_text, slugify, starts_well,
  ends_well, matches_slug, numbered, strip_dash, translit, lower_ascii,
}

-- Characters of a slug, and the first one no dash.
abbrev pub all_slug : Text → Bool
all_slug s = all is_slug_char s

abbrev pub starts : Text → Bool
starts [] = true
starts (c ∷ s) = is_word c

all_slug-dashed : (run : Bool) (s : Text) → all_slug (dashed run s) ≡ true
unfolding dashed
all_slug-dashed run [] = refl
all_slug-dashed run (c ∷ s) = ground (arith, all_slug-dashed true s, all_slug-dashed false s)

all_slug-take : (n : ℕ) (s : Text) → all_slug s ≡ true → all_slug (take n s) ≡ true
all_slug-take zero s h = refl
all_slug-take (suc n) [] h = refl
all_slug-take (suc n) (c ∷ s) h = ground (arith, all_slug-take n s)

starts-take : (n : ℕ) (s : Text) → starts s ≡ true → starts (take n s) ≡ true
starts-take zero s h = refl
starts-take (suc n) [] h = refl
starts-take (suc n) (c ∷ s) h = h

all_slug-lstrip_dash : (s : Text) → all_slug s ≡ true → all_slug (lstrip_dash s) ≡ true
unfolding lstrip_dash
all_slug-lstrip_dash [] h = refl
all_slug-lstrip_dash (c ∷ s) h = ground (arith, all_slug-lstrip_dash s)

starts-lstrip_dash : (s : Text) → all_slug s ≡ true → starts (lstrip_dash s) ≡ true
unfolding lstrip_dash
starts-lstrip_dash [] h = refl
starts-lstrip_dash (c ∷ s) h = elim (Bool-cases (c == 45)) [
  | inl e ↦ rw e (starts-lstrip_dash s (ground (arith, h)))
  | inr e ↦ rw e (ground (arith, h, e))
]

all_slug-rstrip_dash : (s : Text) → all_slug s ≡ true → all_slug (rstrip_dash s) ≡ true
unfolding rstrip_dash
all_slug-rstrip_dash [] h = refl
all_slug-rstrip_dash (c ∷ s) h = ground (arith, all_slug-rstrip_dash s)

starts-rstrip_dash : (s : Text) → starts s ≡ true → starts (rstrip_dash s) ≡ true
unfolding rstrip_dash
starts-rstrip_dash [] h = refl
starts-rstrip_dash (c ∷ s) h = ground arith

strip_dash-slug :
    (s : Text)
    → all_slug s ≡ true
    → (all_slug (strip_dash s) ≡ true) × (starts (strip_dash s) ≡ true)
strip_dash-slug s h = (
  all_slug-rstrip_dash (lstrip_dash s) (all_slug-lstrip_dash s h),
  starts-rstrip_dash (lstrip_dash s) (starts-lstrip_dash s h),
)

-- A base that `slugify` may return.
pub record IsBase (s : Text) : Type 0 where
  pub chars : all_slug s ≡ true
  pub start : starts s ≡ true
  pub long : 2 ≤ length s

slug_text-slug :
    (host : Host) (name : Text)
    → (all_slug (slug_text host name) ≡ true) × (starts (slug_text host name) ≡ true)
unfolding slug_text
slug_text-slug host name =
    let ascii = where_ (λ c. ltb c 128) (host.nfkd (map translit name)) in
    let long = dashed false (map lower_ascii ascii) in
    strip_dash-slug (take 50 (strip_dash long)) (
      all_slug-take 50 (strip_dash long)
        ((strip_dash-slug long (all_slug-dashed false (map lower_ascii ascii))).0))

pub slugify-IsBase : (host : Host) (name : Text) → IsBase (slugify host name)
unfolding slugify
slugify-IsBase host name = elim (Bool-cases (leb 2 (length (slug_text host name)))) [
  | inl e ↦ rw e (record {
    chars = (slug_text-slug host name).0;
    start = (slug_text-slug host name).1;
    long = ground (arith, e);
  })
  | inr e ↦ rw e (record { chars = refl; start = refl; long = omega arith })
]

-- the digits of a number
all_slug-append : (s t : Text) → all_slug s ≡ true → all_slug t ≡ true → all_slug (s ++ t) ≡ true
all_slug-append [] t h k = k
all_slug-append (c ∷ s) t h k = ground (arith, all_slug-append s t)

ends_well-append : (s : Text) (c : ℕ) → is_word c ≡ true → ends_well (s ++ c ∷ []) ≡ true
unfolding ends_well
ends_well-append [] c h = h
ends_well-append (d ∷ []) c h = h
ends_well-append (d ∷ e ∷ s) c h = ends_well-append (e ∷ s) c h

pub record IsDigits (s : Text) : Type 0 where
  pub chars : all_slug s ≡ true
  pub end : ends_well s ≡ true

digit_word : (n : ℕ) → n < 10 → is_word (n + 48) ≡ true
digit_word n h = ground arith

decimal-IsDigits : (rounds n : ℕ) → n < rounds → IsDigits (decimal rounds n)
unfolding decimal ends_well
decimal-IsDigits zero n h = absurd (omega arith)
decimal-IsDigits (suc rounds) n h = elim (Bool-cases (ltb n 10)) [
  | inl e ↦ let w = digit_word n (ground (arith, e)) in rw e (record { chars = rw w refl; end = w })
  | inr e ↦
      let w = digit_word (n % 10) (omega arith) in
      let r = decimal-IsDigits rounds (n / 10) (ground (arith, e, h)) in
      rw e (record {
        chars = all_slug-append (decimal rounds (n / 10)) ((n % 10 + 48) ∷ []) r.chars (rw w refl);
        end = ends_well-append (decimal rounds (n / 10)) (n % 10 + 48) w;
      })
]

-- ten to the power of the number after
abbrev pub ten_to : ℕ → ℕ
ten_to zero = 10
ten_to (suc k) = 10 * ten_to k

length-decimal : (k rounds n : ℕ) → n < ten_to k → length (decimal rounds n) ≤ suc k
unfolding decimal
length-decimal k zero n h = omega arith
length-decimal zero (suc rounds) n h =
    let small : ltb n 10 ≡ true = ground (arith, h) in rw small (omega arith)
length-decimal (suc k) (suc rounds) n h = elim (Bool-cases (ltb n 10)) [
  | inl e ↦ rw e (omega arith)
  | inr e ↦
      rw (e, length-append (decimal rounds (n / 10)) ((n % 10 + 48) ∷ []))
        (let r = length-decimal k rounds (n / 10) (omega (arith, h)) in omega (arith, r))
]

-- a dash
abbrev pub has_dash : Text → Bool
has_dash s = any (λ c. c == 45) s

pub has_dash-append : (s t : Text) → has_dash (s ++ 45 ∷ t) ≡ true
has_dash-append [] t = refl
has_dash-append (c ∷ s) t = ground (arith, has_dash-append s t)

pub not_among :
    (s : Text) (ws : List Text)
    → has_dash s ≡ true
    → all (λ w. not (has_dash w)) ws ≡ true
    → any (text_eq s) ws ≡ false
not_among s [] h k = refl
not_among s (w ∷ ws) h k = elim (Bool-cases (text_eq s w)) [
  | inl e ↦ absurd (ground (arith, ap has_dash (eq_of_text_eq s w e), h, k))
  | inr e ↦ rw e (not_among s ws h (ground (arith, k)))
]

ends_well-dash : (s t : Text) → ends_well t ≡ true → ends_well (s ++ 45 ∷ t) ≡ true
unfolding ends_well
ends_well-dash [] [] h = cc
ends_well-dash [] (c ∷ t) h = h
ends_well-dash (c ∷ []) t h = ends_well-dash [] t h
ends_well-dash (c ∷ d ∷ s) t h = ends_well-dash (d ∷ s) t h

starts_well-numbered : (base : Text) (n : ℕ) → IsBase base → starts_well (numbered base n) ≡ true
starts_well-numbered [] n b = absurd (omega (arith, b.long))
starts_well-numbered (c ∷ s) n b = b.start

show-IsDigits : (n : ℕ) → IsDigits (show n)
unfolding show
show-IsDigits n = decimal-IsDigits (suc n) n (omega arith)

length-show : (n : ℕ) → n < ten_to 12 → length (show n) ≤ 13
unfolding show
length-show n h = length-decimal 12 (suc n) n h

ends_well-long : (s : Text) → ends_well s ≡ true → 1 ≤ length s
unfolding ends_well
ends_well-long [] h = cc
ends_well-long (c ∷ s) h = omega arith

pub matches_slug-numbered :
    (base : Text) (n : ℕ) → IsBase base → n < ten_to 12 → matches_slug (numbered base n) ≡ true
unfolding matches_slug
matches_slug-numbered base n b h =
    let front = take 46 base in
    let digits = show-IsDigits n in
    let chars = all_slug-append front (45 ∷ show n) (all_slug-take 46 base b.chars) digits.chars in
    let ends = ends_well-dash front (show n) digits.end in
    let starts = starts_well-numbered base n b in
    let sizes =
      size_fits (length front) (length (show n)) (length (numbered base n))
        (length-append front (45 ∷ show n)) (length-take_le 46 base) (length-show n h)
        (ends_well-long (show n) digits.end) in
    rw (sizes.0, sizes.1, chars, starts, ends) refl
  where
    size_fits :
        (a b c : ℕ) → c ≡ a + suc b → a ≤ 46 → b ≤ 13 → 1 ≤ b → (leb 2 c ≡ true) × (leb c 60 ≡ true)
    size_fits a b c e l m o = (ground arith, ground arith)
