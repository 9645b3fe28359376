-- ===== src/Namespace/RoundTrip.antt =====
-- crates/core/src/namespace.rs: reading back the text of an entry identifier.
use elasticdms_desktop.Prelude.{
  ℕ, ◌<◌, ◌^◌, ◌≡◌, refl, ap, ◌∙◌, true, false, some, ◌∷◌, ◌++◌, ok, ok_or, ◌>>=◌,
}
use elasticdms_desktop.Text.{
  Text, contains, split_once-append, split_once-none, rsplit_once-append, rsplit_once-none,
}
use elasticdms_desktop.Identifier
use elasticdms_desktop.Identifier.{Kind}
use elasticdms_desktop.Identifier.Texts.{parse-display, contains-display}
use elasticdms_desktop.Namespace.{Container, Location, HintKind, EntryIdentifier}
use elasticdms_desktop.Namespace.Containers.{location, from_location}
use elasticdms_desktop.Namespace.Texts.{
  shape, parse_id, display_container, parse_case, parse_plain, parse_container, display_entry,
  parse_below, parse_entry, text_hint, carries_prefix,
}

-- The identifiers in a container are values of `u128`.
abbrev pub FitsContainer : Container → Type 0
FitsContainer (Container.basket k) = k < 2 ^ 128
FitsContainer (Container.archive k) = k < 2 ^ 128
FitsContainer (Container.case a c) = (a < 2 ^ 128) × (c < 2 ^ 128)
FitsContainer (Container.search k) = k < 2 ^ 128
FitsContainer _ = Unit

abbrev pub Fits : EntryIdentifier → Type 0
Fits (EntryIdentifier.container c) = FitsContainer c
Fits (EntryIdentifier.document l d) = FitsContainer (from_location l) × (d < 2 ^ 128)
Fits (EntryIdentifier.hint l _) = FitsContainer l

parse_id-display :
    (kind : Kind) (k : ℕ) → k < 2 ^ 128 → parse_id kind (Identifier.display kind k) ≡ ok k
parse_id-display kind k h = rw (parse-display kind k h)

carries_prefix-display :
    (kind : Kind) (k : ℕ) → carries_prefix kind (Identifier.display kind k) ≡ true
unfolding Identifier.display
carries_prefix-display Kind.device k = refl
carries_prefix-display _ k = refl

parse_plain-basket :
    (k : ℕ) → k < 2 ^ 128 → parse_plain (Identifier.display Kind.basket k) ≡ ok (Container.basket k)
parse_plain-basket k h =
    start ∙ ap (λ r. r >>= λ v. ok (Container.basket v)) (parse_id-display Kind.basket k h)
  where
    start :
        parse_plain (Identifier.display Kind.basket k)
        ≡ (parse_id Kind.basket (Identifier.display Kind.basket k) >>= λ v. ok (Container.basket v))
    start = unfold Identifier.display in refl

parse_plain-archive :
    (k : ℕ)
    → k < 2 ^ 128
    → parse_plain (Identifier.display Kind.archive k) ≡ ok (Container.archive k)
parse_plain-archive k h =
    start ∙ ap (λ r. r >>= λ v. ok (Container.archive v)) (parse_id-display Kind.archive k h)
  where
    start : parse_plain (Identifier.display Kind.archive k) ≡ (
        parse_id Kind.archive (Identifier.display Kind.archive k) >>= λ v. ok (Container.archive v))
    start = unfold Identifier.display in refl

parse_plain-search :
    (k : ℕ) → k < 2 ^ 128 → parse_plain (Identifier.display Kind.search k) ≡ ok (Container.search k)
parse_plain-search k h =
    start ∙ ap (λ r. r >>= λ v. ok (Container.search v)) (parse_id-display Kind.search k h)
  where
    start :
        parse_plain (Identifier.display Kind.search k)
        ≡ (parse_id Kind.search (Identifier.display Kind.search k) >>= λ v. ok (Container.search v))
    start = unfold Identifier.display in refl

parse_case-display :
    (text : Text) (a c : ℕ)
    → a < 2 ^ 128
    → c < 2 ^ 128
    → parse_case text (Identifier.display Kind.archive a) (Identifier.display Kind.case c)
      ≡ ok (Container.case a c)
parse_case-display text a c ha hc = rw (
  carries_prefix-display Kind.archive a,
  carries_prefix-display Kind.case c,
  contains-display Kind.case c,
  parse-display Kind.archive a ha,
  parse-display Kind.case c hc,
)

plain_text : (text : Text) → contains b'/' text ≡ false → parse_container text ≡ parse_plain text
unfolding parse_container
plain_text text h = rw (split_once-none b'/' text h, parse_container)

-- The text of a container is read back as that container.
pub parse_container-display :
    (c : Container) → FitsContainer c → parse_container (display_container c) ≡ ok c
unfolding parse_container display_container
parse_container-display Container.root h = refl
parse_container-display Container.baskets h = refl
parse_container-display Container.archives h = refl
parse_container-display Container.searches h = refl
parse_container-display (Container.basket k) h =
    plain_text (Identifier.display Kind.basket k) (contains-display Kind.basket k)
    ∙ parse_plain-basket k h
parse_container-display (Container.archive k) h =
    plain_text (Identifier.display Kind.archive k) (contains-display Kind.archive k)
    ∙ parse_plain-archive k h
parse_container-display (Container.case a c) h =
    rw
      (
        split_once-append b'/' (Identifier.display Kind.archive a) (Identifier.display Kind.case c)
            (contains-display Kind.archive a),
        parse_container,
      )
      (parse_case-display _ a c h.0 h.1)
parse_container-display (Container.search k) h =
    plain_text (Identifier.display Kind.search k) (contains-display Kind.search k)
    ∙ parse_plain-search k h

-- Behind the last `/` of a text stands what has none.
below_text :
    (front back : Text)
    → contains b'/' back ≡ false
    → parse_entry (front ++ (b'/' ∷ back)) ≡ parse_below (front ++ (b'/' ∷ back)) front back
unfolding parse_entry
below_text front back h = rw (rsplit_once-append b'/' front back h, parse_entry)

plain_entry :
    (text : Text) (c : Container)
    → contains b'/' text ≡ false
    → parse_container text ≡ ok c
    → parse_entry text ≡ ok (EntryIdentifier.container c)
unfolding parse_entry
plain_entry text c h p = rw (rsplit_once-none b'/' text h, parse_entry) (rw p)

-- A text that ends in a case file's identifier is a container's.
parse_below-case :
    (text front : Text) (k : ℕ) (c : Container)
    → parse_container text ≡ ok c
    → parse_below text front (Identifier.display Kind.case k) ≡ ok (EntryIdentifier.container c)
parse_below-case text front k c p = start ∙ ap (λ r. r >>= λ c. ok (EntryIdentifier.container c)) p
  where
    start :
        parse_below text front (Identifier.display Kind.case k)
        ≡ (parse_container text >>= λ c. ok (EntryIdentifier.container c))
    start = unfold Identifier.display in refl

location-from_location : (l : Location) → location (from_location l) ≡ some l
unfolding location from_location
location-from_location (Location.case a c) = refl
location-from_location (Location.search k) = refl

parse_below-document :
    (text front : Text) (l : Location) (d : ℕ)
    → parse_container front ≡ ok (from_location l)
    → d < 2 ^ 128
    → parse_below text front (Identifier.display Kind.document d)
      ≡ ok (EntryIdentifier.document l d)
parse_below-document text front l d p h =
    start ∙ rw p (rw (location-from_location l) (rw (parse-display Kind.document d h)))
  where
    start : parse_below text front (Identifier.display Kind.document d) ≡ (do
      c ← parse_container front
      l ← ok_or (shape text) (location c)
      d ← parse_id Kind.document (Identifier.display Kind.document d)
      ok (EntryIdentifier.document l d))
    start = unfold Identifier.display in refl

parse_below-hint :
    (text front : Text) (l : Container) (kind : HintKind)
    → parse_container front ≡ ok l
    → parse_below text front (text_hint kind) ≡ ok (EntryIdentifier.hint l kind)
parse_below-hint text front l HintKind.read_me p = rw p
parse_below-hint text front l HintKind.truncated p = rw p

contains-text_hint : (kind : HintKind) → contains b'/' (text_hint kind) ≡ false
contains-text_hint HintKind.read_me = refl
contains-text_hint HintKind.truncated = refl

parse_entry-display_container :
    (c : Container)
    → FitsContainer c
    → parse_entry (display_container c) ≡ ok (EntryIdentifier.container c)
unfolding display_container
parse_entry-display_container (Container.basket k) h =
    plain_entry (Identifier.display Kind.basket k) (Container.basket k)
      (contains-display Kind.basket k) (parse_container-display (Container.basket k) h)
parse_entry-display_container (Container.archive k) h =
    plain_entry (Identifier.display Kind.archive k) (Container.archive k)
      (contains-display Kind.archive k) (parse_container-display (Container.archive k) h)
parse_entry-display_container (Container.search k) h =
    plain_entry (Identifier.display Kind.search k) (Container.search k)
      (contains-display Kind.search k) (parse_container-display (Container.search k) h)
parse_entry-display_container (Container.case a c) h =
    below_text (Identifier.display Kind.archive a) (Identifier.display Kind.case c)
      (contains-display Kind.case c)
    ∙ parse_below-case (display_container (Container.case a c)) (Identifier.display Kind.archive a)
        c (Container.case a c) (parse_container-display (Container.case a c) h)
parse_entry-display_container c h = unfold parse_entry parse_container in refl

-- Every entry identifier whose values have 128 bits is read back from its text.
pub parse_entry-display : (e : EntryIdentifier) → Fits e → parse_entry (display_entry e) ≡ ok e
unfolding display_entry
parse_entry-display (EntryIdentifier.container c) h = parse_entry-display_container c h
parse_entry-display (EntryIdentifier.document l d) h =
    below_text (display_container (from_location l)) (Identifier.display Kind.document d)
      (contains-display Kind.document d)
    ∙ parse_below-document (display_entry (EntryIdentifier.document l d))
        (display_container (from_location l)) l d (parse_container-display (from_location l) h.0)
        h.1
parse_entry-display (EntryIdentifier.hint l kind) h =
    below_text (display_container l) (text_hint kind) (contains-text_hint kind)
    ∙ parse_below-hint (display_entry (EntryIdentifier.hint l kind)) (display_container l) l kind
        (parse_container-display l h)
