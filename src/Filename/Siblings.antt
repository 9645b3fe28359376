-- ===== src/Filename/Siblings.antt =====
-- crates/core/src/filename.rs: the names of siblings. The normalization and `comparison_form` are
-- arguments; the hash map of counts is the function that counts.
use elasticdms_desktop.Prelude.{
  ℕ, suc, ◌+◌, ◌<◌, ◌≡◌, refl, sym, ap, ◌&&◌, Option, none, some, List, [], ◌∷◌, ◌++◌, map, ltb,
  lt→ltb, leb, if◌then◌else◌, arith,
}
use elasticdms_desktop.Text.{Text, codes, text_eq, text_eq_refl}
use elasticdms_desktop.Filename.{sanitize, assemble, trim, split_first}

-- `RawName`
pub record RawName : Type 0 where
  pub title : Text
  pub extension : Option Text
  pub short_form : Text

abbrev lower : ℕ → ℕ
lower c = if leb b'A' c && leb c b'Z' then c + 32 else c

abbrev to_ascii_lowercase : Text → Text
to_ascii_lowercase [] = []
to_ascii_lowercase (c ∷ t) = lower c ∷ to_ascii_lowercase t

abbrev lookup_extension : List (Text × Text) → Text → Text
lookup_extension [] base = codes "bin"
lookup_extension ((t, e) ∷ rest) base = if text_eq base t then e else lookup_extension rest base

-- `extension_for`
unfoldable pub extension_for : Text → Text
unfolding trim split_first
extension_for media_type =
    lookup_extension
      ((codes "application/pdf", codes "pdf")
        ∷ (codes "image/png", codes "png")
        ∷ (codes "image/jpeg", codes "jpg")
        ∷ (codes "image/gif", codes "gif")
        ∷ (codes "image/webp", codes "webp")
        ∷ (codes "image/tiff", codes "tif")
        ∷ (codes "text/plain", codes "txt")
        ∷ (codes "application/xml", codes "xml")
        ∷ (codes "text/xml", codes "xml")
        ∷ [])
      (to_ascii_lowercase (trim (split_first b';' media_type)))

-- `RawName::folder` and `RawName::file`
unfoldable pub raw_folder : Text → Text → RawName
raw_folder title short_form = record { title = title; extension = none; short_form = short_form }

unfoldable pub raw_file : Text → Text → Text → RawName
unfolding extension_for
raw_file title media_type short_form = record {
  title = title;
  extension = some (extension_for media_type);
  short_form = short_form;
}

module _ (nfc fold : Text → Text) where
  -- The name without and with the short form
  unfoldable pub plain_name : RawName → Text
  unfolding sanitize assemble
  plain_name r = assemble (sanitize nfc r.title) none r.extension

  unfoldable pub long_name : RawName → Text
  unfolding sanitize assemble
  long_name r = assemble (sanitize nfc r.title) (some r.short_form) r.extension

  -- How many of the names have a form
  unfoldable pub count_form : Text → List Text → ℕ
  count_form form [] = 0
  count_form form (n ∷ ns) =
      let rest = count_form form ns in if text_eq (fold n) form then suc rest else rest

  -- The closure of the last `map` in `name`
  unfoldable pub named : List RawName → List Text → RawName → Text
  unfolding plain_name long_name count_form
  named raw reserved r =
      let form = fold (plain_name r) in
      if ltb 1 (count_form form (map plain_name raw) + count_form form reserved)
      then long_name r
      else plain_name r

  -- `name`
  unfoldable pub name : List RawName → List Text → List Text
  unfolding named
  name raw reserved = map (named raw reserved) raw

  count_form-append :
      (form : Text) (xs ys : List Text)
      → count_form form (xs ++ ys) ≡ count_form form xs + count_form form ys
  unfolding count_form
  count_form-append form [] ys = omega arith
  count_form-append form (x ∷ xs) ys = ground (arith, count_form-append form xs ys)

  map-append :
      (xs ys : List RawName) → map plain_name (xs ++ ys) ≡ map plain_name xs ++ map plain_name ys
  map-append [] ys = refl
  map-append (x ∷ xs) ys = ap (λ l. plain_name x ∷ l) (map-append xs ys)

  count_own :
      (form : Text) (x : RawName) (xs : List RawName)
      → fold (plain_name x) ≡ form
      → count_form form (map plain_name (x ∷ xs)) ≡ 1 + count_form form (map plain_name xs)
  unfolding count_form
  count_own form x xs h = rw h (rw (text_eq_refl form) (omega arith))

  twice :
      (a b c : List RawName) (x y : RawName) (form : Text)
      → fold (plain_name x) ≡ form
      → fold (plain_name y) ≡ form
      → 1 < count_form form (map plain_name (a ++ x ∷ (b ++ y ∷ c)))
  twice a b c x y form h g = omega (
    arith,
    ap (count_form form) (map-append a (x ∷ (b ++ y ∷ c))),
    count_form-append form (map plain_name a) (map plain_name (x ∷ (b ++ y ∷ c))),
    count_own form x (b ++ y ∷ c) h,
    ap (count_form form) (map-append b (y ∷ c)),
    count_form-append form (map plain_name b) (map plain_name (y ∷ c)),
    count_own form y c g,
  )

  -- Two siblings whose plain names count as equal both get their short forms, wherever they stand
  -- and whatever else is listed or reserved.
  pub named_collision :
      (a b c : List RawName) (x y : RawName) (reserved : List Text)
      → fold (plain_name x) ≡ fold (plain_name y)
      → (named (a ++ x ∷ (b ++ y ∷ c)) reserved x ≡ long_name x)
        × (named (a ++ x ∷ (b ++ y ∷ c)) reserved y ≡ long_name y)
  unfolding named
  named_collision a b c x y reserved h = (
    rw (
        lt→ltb 1
          (count_form (fold (plain_name x)) (map plain_name (a ++ x ∷ (b ++ y ∷ c)))
            + count_form (fold (plain_name x)) reserved)
          (omega (arith, twice a b c x y (fold (plain_name x)) refl (sym h)))),
    rw (
        lt→ltb 1
          (count_form (fold (plain_name y)) (map plain_name (a ++ x ∷ (b ++ y ∷ c)))
            + count_form (fold (plain_name y)) reserved)
          (omega (arith, twice a b c x y (fold (plain_name y)) h refl))),
  )
