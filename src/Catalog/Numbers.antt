-- ===== src/Catalog/Numbers.antt =====
-- catalog.py: `next_style_code`
use twirl.Prelude.{
  ℕ, zero, suc, ◌+◌, ◌≤◌, ◌<◌, ◌≡◌, refl, ap, subst, ◌∙◌, inl, inr, true, false, List, [], ◌∷◌, map,
  Text, text_eq, eq_of_text_eq, length, where_, arith, ltb, ◌==◌, Bool-cases, number_from,
  number_from-show, holds_number, free_number, eq_or_more,
}
use twirl.Model.{Db, Style}
use twirl.Catalog.{style_code, style_code_taken, try_style_codes, style_count, next_style_code}

-- A code reads back as its number.
number_from-style_code : (n : ℕ) → number_from 0 (style_code n) ≡ n
unfolding style_code
number_from-style_code n = elim (Bool-cases (ltb n 10)) [
  | inl e ↦ rw e (number_from-show n)
  | inr e ↦ elim (Bool-cases (ltb n 100)) [
    | inl f ↦ rw (e, f) (number_from-show n)
    | inr f ↦ rw (e, f) (number_from-show n)
  ]
]

module _ (shop_id : ℕ) where
  -- the numbers of the codes of the shop
  abbrev numbers : List Style → List ℕ
  numbers styles =
      map (λ (st : Style). number_from 0 st.code)
        (where_ (λ (st : Style). st.shop_id == shop_id) styles)

  length-numbers : (styles : List Style) → length (numbers styles) ≡ style_count shop_id styles
  length-numbers [] = refl
  length-numbers (st ∷ styles) = ground (arith, length-numbers styles)

  same_number :
      (st : Style) (n : ℕ) → text_eq st.code (style_code n) ≡ true → number_from 0 st.code ≡ n
  same_number st n h =
      ap (number_from 0) (eq_of_text_eq st.code (style_code n) h) ∙ number_from-style_code n

  not_taken :
      (n : ℕ) (styles : List Style)
      → holds_number n (numbers styles) ≡ false
      → style_code_taken shop_id (style_code n) styles ≡ false
  not_taken n [] h = refl
  not_taken n (st ∷ styles) h = ground (arith, not_taken n styles, same_number st n)

  -- The first number after `n` whose code is free.
  pub record IsNext (n : ℕ) (styles : List Style) (code : Text) : Type 0 where
    pub number : ℕ
    pub above : n < number
    pub written : code ≡ style_code number
    pub free : style_code_taken shop_id code styles ≡ false
    pub first : (m : ℕ) → n < m → m < number → style_code_taken shop_id (style_code m) styles ≡ true

  later :
      (n : ℕ) (code : Text) (styles : List Style)
      → style_code_taken shop_id (style_code (n + 1)) styles ≡ true
      → IsNext (n + 1) styles code
      → IsNext n styles code
  later n code styles e r = record {
    number = r.number;
    above = omega (arith, r.above);
    written = r.written;
    free = r.free;
    first = λ k l h. elim (eq_or_more (n + 1) k (omega arith)) [
      | inl same ↦ subst (λ x. style_code_taken shop_id (style_code x) styles ≡ true) same e
      | inr more ↦ r.first k (omega arith) h
    ];
  }

  try_style_codes-IsNext :
      (n rounds m : ℕ) (styles : List Style)
      → n < m
      → m ≤ n + 1 + rounds
      → style_code_taken shop_id (style_code m) styles ≡ false
      → IsNext n styles (try_style_codes shop_id n rounds styles)
  unfolding try_style_codes
  try_style_codes-IsNext n zero m styles low high free = record {
    number = n + 1;
    above = omega arith;
    written = refl;
    free = subst (λ k. style_code_taken shop_id (style_code k) styles ≡ false) (omega arith) free;
    first = λ k l h. absurd (omega arith);
  }
  try_style_codes-IsNext n (suc rounds) m styles low high free =
      elim (Bool-cases (style_code_taken shop_id (style_code (n + 1)) styles)) [
        | inr e ↦ rw e (record {
          number = n + 1;
          above = omega arith;
          written = refl;
          free = e;
          first = λ k l h. absurd (omega arith);
        })
        | inl e ↦ rw e (elim (eq_or_more (n + 1) m (omega arith)) [
          | inl same ↦ absurd (
              ground
                (arith, ap (λ k. style_code_taken shop_id (style_code k) styles) same, e, free))
          | inr more ↦
              later n (try_style_codes shop_id (n + 1) rounds styles) styles e
                (try_style_codes-IsNext (n + 1) rounds m styles (omega arith) (omega arith) free)
        ])
      ]

  -- `next_style_code` returns a code that no style of the shop has: that of the first free number above
  -- the count of the shop's styles.
  pub next_style_code-IsNext :
      (db : Db) → IsNext (style_count shop_id db.styles) db.styles (next_style_code shop_id db)
  unfolding next_style_code
  next_style_code-IsNext db =
      let count = style_count shop_id db.styles in
      let (m, low, high, out) =
        free_number count (count + 1) (numbers db.styles)
          (omega (arith, length-numbers db.styles)) in
      try_style_codes-IsNext count count m db.styles (omega arith) (omega arith)
        (not_taken m db.styles out)
