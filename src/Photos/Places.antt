-- ===== src/Photos/Places.antt =====
-- catalog.py: how many photos a style may have.
use twirl.Prelude.{
  ℕ, ◌+◌, ◌≤◌, ◌≡◌, refl, inl, inr, Bool, false, Option, none, some, List, [], ◌∷◌, ◌++◌, Text,
  arith, length, length-append, where_, leb, Bool-cases,
}
use twirl.Exec.{pure, raise}
use twirl.Model.{Db, StyleImage}
use twirl.Photos.{of_style, image_count, save_style_image}

where-append :
    (p : StyleImage → Bool) (xs ys : List StyleImage)
    → where_ p (xs ++ ys) ≡ where_ p xs ++ where_ p ys
where-append p [] ys = refl
where-append p (x ∷ xs) ys = ground (arith, where-append p xs ys)

-- How a photo counts for the style with the given number.
counted : (style_id : ℕ) (row : StyleImage) → length (where_ (of_style style_id) (row ∷ [])) ≤ 1
counted style_id row = ground arith

more_images :
    (style_id : ℕ) (rows : List StyleImage) (row : StyleImage)
    → length (where_ (of_style style_id) (rows ++ row ∷ []))
      ≤ length (where_ (of_style style_id) rows) + 1
more_images style_id rows row = rw (where-append (of_style style_id) rows (row ∷ [])) (
    omega (
      arith,
      length-append (where_ (of_style style_id) rows) (where_ (of_style style_id) (row ∷ [])),
      counted style_id row,
    ))

grown : (n m : ℕ) → leb 8 n ≡ false → m ≤ n + 1 → m ≤ 8
grown n m e h = ground (arith, h)

-- A style that has no more than eight photos has no more than eight after another one was saved or
-- refused.
pub save_style_image-image_count :
    (style_id : ℕ) (hex : Text) (processed : Option (ℕ × ℕ)) (db : Db) (files : List Text)
    → image_count style_id db ≤ 8
    → image_count style_id (save_style_image style_id hex processed (db, files)).1.0 ≤ 8
unfolding save_style_image pure raise
save_style_image-image_count style_id hex none db files h =
    elim (Bool-cases (leb 8 (image_count style_id db))) [ inl e ↦ rw e h | inr e ↦ rw e h ]
save_style_image-image_count style_id hex (some size) db files h =
    elim (Bool-cases (leb 8 (image_count style_id db))) [
      | inl e ↦ rw e h
      | inr e ↦ rw e (grown (image_count style_id db) _ e (more_images style_id db.style_images _))
    ]
