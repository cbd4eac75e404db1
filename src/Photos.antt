-- ===== src/Photos.antt =====
-- catalog.py: the photos of a style. The files of the storage are named by their keys.
pub mod Places
use twirl.Prelude.{
  ℕ, zero, suc, ◌+◌, Bool, true, false, not, ◌&&◌, Option, none, some, List, [], ◌∷◌, ◌++◌, map,
  Text, codes, show, length, where_, sort_by, ltb, leb, ◌==◌, if◌then◌else◌,
}
use twirl.Exec.{Exec, Result, ok, err, pure, raise, ◌>>=◌}
use twirl.Errors.{Error, too_many_images, not_an_image}
use twirl.Model.{Db, StyleImage}

abbrev pub max_images_per_style : ℕ
max_images_per_style = 8

abbrev pub of_style : ℕ → StyleImage → Bool
of_style style_id i = i.style_id == style_id

abbrev pub image_count : ℕ → Db → ℕ
image_count style_id db = length (where_ (of_style style_id) db.style_images)

-- The tables, and the keys of the files that are stored.
abbrev pub Shelf : Type 0
Shelf = Db × List Text

abbrev pub new_image : ℕ → ℕ → ℕ → Text → ℕ × ℕ → StyleImage
new_image id style_id position key (width, height) = record {
  id = id;
  style_id = style_id;
  position = position;
  storage_key = key;
  width = width;
  height = height;
}

-- f"{key}-{variant}.webp" of the two variants
abbrev pub variant_keys : Text → List Text
variant_keys key = (key ++ codes "-thumb.webp") ∷ (key ++ codes "-detail.webp") ∷ []

abbrev pub store_image : ℕ → Text → Option (ℕ × ℕ) → Exec Shelf Error StyleImage
store_image style_id hex none shelf = raise not_an_image shelf
store_image style_id hex (some size) (db, files) =
    let key = codes "styles/" ++ show style_id ++ codes "/" ++ hex in
    let row = new_image db.image_seq style_id (image_count style_id db) key size in
    pure row (
      record db { style_images = db.style_images ++ row ∷ []; image_seq = suc db.image_seq },
      files ++ variant_keys key,
    )

-- `processed` is the size that process_image makes of the data, if it takes it; `hex` is uuid4().hex.
unfoldable pub save_style_image :
    (style_id : ℕ) → Text → Option (ℕ × ℕ) → Exec Shelf Error StyleImage
unfolding raise pure
save_style_image style_id hex processed (db, files) =
    if leb max_images_per_style (image_count style_id db)
    then raise too_many_images (db, files)
    else store_image style_id hex processed (db, files)

abbrev pub by_position : StyleImage → StyleImage → Bool
by_position a b = leb a.position b.position

unfoldable pub photos_of : ℕ → List StyleImage → List StyleImage
photos_of style_id images = sort_by by_position (where_ (of_style style_id) images)

-- UPDATE style_images SET position = ... WHERE id = ...
abbrev pub place : ℕ → ℕ → List StyleImage → List StyleImage
place id position images =
    map (λ (i : StyleImage). if i.id == id then record i { position = position } else i) images

-- for position, row in enumerate(remaining)
unfoldable pub renumber : ℕ → List StyleImage → List StyleImage → List StyleImage
renumber position [] images = images
renumber position (row ∷ remaining) images =
    renumber (suc position) remaining (place row.id position images)

abbrev pub remove_image : ℕ → List StyleImage → List StyleImage
remove_image id images = where_ (λ (i : StyleImage). not (i.id == id)) images

-- The keys of the deleted files, and the table.
unfoldable pub delete_style_image : StyleImage → Db → List Text × Db
delete_style_image image db =
    let rest = remove_image image.id db.style_images in
    (
      variant_keys image.storage_key,
      record db { style_images = renumber 0 (photos_of image.style_id rest) rest },
    )
