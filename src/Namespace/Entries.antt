-- ===== src/Namespace/Entries.antt =====
-- crates/core/src/namespace.rs: the entries of a listing.
use elasticdms_desktop.Prelude.{
  ℕ, Bool, true, false, Option, none, some, List, ◌==◌, ==_iff, ◌&&◌, ◌≡◌, refl, ap, arith,
}
use elasticdms_desktop.Prelude.Int.{ℤ}
use elasticdms_desktop.Text.{Text, text_eq, text_eq→eq}
use elasticdms_desktop.Namespace.{EntryIdentifier}
use elasticdms_desktop.Namespace.Order.{id_eq, id_eq_iff}

-- A `Sha256Value` is the list of its bytes, a `Timestamp` its milliseconds.
pub record FileDetails : Type 0 where
  pub size : ℕ
  pub sha256 : Option (List ℕ)
  pub version : Text
  pub created : ℤ
  pub changed : ℤ
  pub media_type : Text

pub data EntryContent : Type 0 where
  folder : EntryContent
  file : FileDetails → EntryContent

pub record Entry : Type 0 where
  pub identifier : EntryIdentifier
  pub name : Text
  pub content : EntryContent

abbrev is_folder_content : EntryContent → Bool
is_folder_content EntryContent.folder = true
is_folder_content (EntryContent.file _) = false

-- `Entry::is_folder`
unfoldable pub is_folder : Entry → Bool
is_folder e = is_folder_content e.content

abbrev details : EntryContent → Option FileDetails
details EntryContent.folder = none
details (EntryContent.file d) = some d

-- `Entry::file`
unfoldable pub file_of : Entry → Option FileDetails
file_of e = details e.content

abbrev int_eq : ℤ → ℤ → Bool
int_eq (ℤ.pos a) (ℤ.pos b) = a == b
int_eq (ℤ.negsuc a) (ℤ.negsuc b) = a == b
int_eq _ _ = false

abbrev pub option_eq : Option Text → Option Text → Bool
option_eq none none = true
option_eq (some a) (some b) = text_eq a b
option_eq _ _ = false

-- The derived `PartialEq` of details, contents and entries.
unfoldable pub details_eq : FileDetails → FileDetails → Bool
details_eq a b =
    a.size == b.size
    && (option_eq a.sha256 b.sha256
        && (text_eq a.version b.version
            && (int_eq a.created b.created
                && (int_eq a.changed b.changed && text_eq a.media_type b.media_type))))

unfoldable pub content_eq : EntryContent → EntryContent → Bool
unfolding details_eq
content_eq EntryContent.folder EntryContent.folder = true
content_eq (EntryContent.file a) (EntryContent.file b) = details_eq a b
content_eq _ _ = false

unfoldable pub entry_eq : Entry → Entry → Bool
unfolding content_eq
entry_eq e f =
    id_eq e.identifier f.identifier && (text_eq e.name f.name && content_eq e.content f.content)

int_eq→eq : (a b : ℤ) → int_eq a b ≡ true → a ≡ b
int_eq→eq a b h = ground arith

option_eq→eq : (a b : Option Text) → option_eq a b ≡ true → a ≡ b
option_eq→eq none none h = refl
option_eq→eq none (some b) h = ground arith
option_eq→eq (some a) none h = ground arith
option_eq→eq (some a) (some b) h = ap some (text_eq→eq a b h)

and_parts : (a b : Bool) → (a && b) ≡ true → (a ≡ true) × (b ≡ true)
and_parts a b h = ground arith

details_eq→eq : (a b : FileDetails) → details_eq a b ≡ true → a ≡ b
unfolding details_eq
details_eq→eq a b h =
    let (p₁, r₁) = and_parts _ _ h in
    let (p₂, r₂) = and_parts _ _ r₁ in
    let (p₃, r₃) = and_parts _ _ r₂ in
    let (p₄, r₄) = and_parts _ _ r₃ in
    let (p₅, p₆) = and_parts _ _ r₄ in
    λ i. record {
      size = (==_iff a.size b.size).0 p₁ i;
      sha256 = option_eq→eq a.sha256 b.sha256 p₂ i;
      version = text_eq→eq a.version b.version p₃ i;
      created = int_eq→eq a.created b.created p₄ i;
      changed = int_eq→eq a.changed b.changed p₅ i;
      media_type = text_eq→eq a.media_type b.media_type p₆ i;
    }

content_eq→eq : (a b : EntryContent) → content_eq a b ≡ true → a ≡ b
unfolding content_eq
content_eq→eq EntryContent.folder EntryContent.folder h = refl
content_eq→eq (EntryContent.file a) (EntryContent.file b) h =
    ap EntryContent.file (details_eq→eq a b h)
content_eq→eq EntryContent.folder (EntryContent.file b) h = ground arith
content_eq→eq (EntryContent.file a) EntryContent.folder h = ground arith

pub entry_eq→eq : (e f : Entry) → entry_eq e f ≡ true → e ≡ f
unfolding entry_eq
entry_eq→eq e f h =
    let (p₁, r₁) = and_parts _ _ h in
    let (p₂, p₃) = and_parts _ _ r₁ in
    λ i. record {
      identifier = (id_eq_iff e.identifier f.identifier).0 p₁ i;
      name = text_eq→eq e.name f.name p₂ i;
      content = content_eq→eq e.content f.content p₃ i;
    }
