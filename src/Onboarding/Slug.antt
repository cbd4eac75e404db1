-- ===== src/Onboarding/Slug.antt =====
-- onboarding.py: `slugify` and `unique_slug`; slugs.py.
pub mod Chars
pub mod Unique
use twirl.Prelude.{
  ℕ, zero, suc, ◌+◌, Bool, true, false, not, ◌&&◌, ◌||◌, List, [], ◌∷◌, ◌++◌, map, Text, codes,
  show, text_eq, length, take, any, all, where_, is_empty, ltb, leb, ◌==◌, if◌then◌else◌,
}
use twirl.Host.{Host}
use twirl.Model.{Db, Shop}

-- `text.translate(_TRANSLIT)`: the letters with a diaeresis or a cedilla that Albanian has
abbrev pub translit : ℕ → ℕ
translit c = if c == 235 || c == 203 then 101 else if c == 231 || c == 199 then 99 else c

-- `str.lower` of an ASCII character
abbrev pub lower_ascii : ℕ → ℕ
lower_ascii c = if leb 65 c && leb c 90 then c + 32 else c

-- [a-z0-9]
abbrev pub is_word : ℕ → Bool
is_word c = (leb 97 c && leb c 122) || (leb 48 c && leb c 57)

-- re.sub(r"[^a-z0-9]+", "-", text), with whether the last character was replaced
unfoldable pub dashed : Bool → Text → Text
dashed run [] = []
dashed run (c ∷ s) =
    let kept = c ∷ dashed false s in
    let replaced = dashed true s in
    if is_word c then kept else if run then replaced else 45 ∷ replaced

-- text.strip("-")
unfoldable pub lstrip_dash : Text → Text
lstrip_dash [] = []
lstrip_dash (c ∷ s) = let rest = lstrip_dash s in if c == 45 then rest else c ∷ s

unfoldable pub rstrip_dash : Text → Text
rstrip_dash [] = []
rstrip_dash (c ∷ s) = let rest = rstrip_dash s in if c == 45 && is_empty rest then [] else c ∷ rest

abbrev pub strip_dash : Text → Text
strip_dash s = rstrip_dash (lstrip_dash s)

-- what is left of a name: letters, digits and single dashes, at most fifty
unfoldable pub slug_text : Host → Text → Text
unfolding dashed lstrip_dash rstrip_dash
slug_text host name =
    let ascii = where_ (λ c. ltb c 128) (host.nfkd (map translit name)) in
    strip_dash (take 50 (strip_dash (dashed false (map lower_ascii ascii))))

unfoldable pub slugify : Host → Text → Text
slugify host name =
    let text = slug_text host name in if leb 2 (length text) then text else codes "vesha"

abbrev pub reserved_slugs : List Text
reserved_slugs =
    codes "admin"
    ∷ codes "api"
    ∷ codes "healthz"
    ∷ codes "lang"
    ∷ codes "listo"
    ∷ codes "login"
    ∷ codes "logout"
    ∷ codes "media"
    ∷ codes "r"
    ∷ codes "shop"
    ∷ codes "static"
    ∷ []

abbrev pub is_slug_char : ℕ → Bool
is_slug_char c = is_word c || c == 45

-- the first and the last character of `_SLUG_RE`
abbrev pub starts_well : Text → Bool
starts_well [] = false
starts_well (c ∷ s) = is_word c

unfoldable pub ends_well : Text → Bool
ends_well [] = false
ends_well (c ∷ s) = if is_empty s then is_word c else ends_well s

-- _SLUG_RE.fullmatch(slug)
unfoldable pub matches_slug : Text → Bool
matches_slug s =
    leb 2 (length s) && leb (length s) 60 && all is_slug_char s && starts_well s && ends_well s

unfoldable pub is_valid_slug : Text → Bool
is_valid_slug s = matches_slug s && not (any (text_eq s) reserved_slugs)

abbrev pub slug_taken : Text → List Shop → Bool
slug_taken slug shops = any (λ (s : Shop). text_eq s.slug slug) shops

-- f"{base[:46]}-{n}"
abbrev pub numbered : Text → ℕ → Text
numbered base n = take 46 base ++ 45 ∷ show n

-- The loop of `unique_slug` from a candidate on, over the rounds that it has left; `n` is the number of
-- the next candidate.
unfoldable pub try_slugs : (base candidate : Text) → (n rounds : ℕ) → List Shop → Text
try_slugs base candidate n zero shops = candidate
try_slugs base candidate n (suc rounds) shops =
    let again = try_slugs base (numbered base n) (n + 1) rounds shops in
    if not (is_valid_slug candidate) || slug_taken candidate shops then again else candidate

-- As many rounds as there are shops, and one more for a name that is no slug.
unfoldable pub unique_slug : Host → Text → Db → Text
unfolding try_slugs
unique_slug host name db =
    let base = slugify host name in try_slugs base base 2 (length db.shops + 1) db.shops
