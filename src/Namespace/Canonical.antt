-- ===== src/Namespace/Canonical.antt =====
-- crates/core/src/namespace.rs: which texts `FromStr` accepts for an identifier.
use elasticdms_desktop.Prelude.{
  ℕ, ◌<◌, ◌^◌, ◌≡◌, refl, sym, Bool, true, false, not, ◌&&◌, Option, none, some, ◌∷◌, ◌++◌,
  if◌then◌else◌, Result, ok, err, map_err, ok_or, ◌>>=◌, arith, >>=-eq-ok, Bool-cases, Option-cases,
  inl, inr,
}
use elasticdms_desktop.Text.{
  Text, contains, text_eq, text_eq→eq, split_once, rsplit_once, append-split_once,
  append-rsplit_once,
}
use elasticdms_desktop.Identifier
use elasticdms_desktop.Identifier.{Kind}
use elasticdms_desktop.Identifier.Texts.{parse_ok}
use elasticdms_desktop.Namespace.{Container, Location, HintKind, EntryIdentifier}
use elasticdms_desktop.Namespace.Containers.{location, from_location}
use elasticdms_desktop.Namespace.Texts.{
  EntryIdentifierError, shape, parse_id, display_container, parse_case, parse_plain,
  parse_container, display_entry, parse_below, parse_entry, text_hint, carries_prefix, text_root,
  text_baskets, text_archives, text_searches,
}
use elasticdms_desktop.Namespace.RoundTrip.{Fits, FitsContainer}

ok-injective {ℓ κ} :
    {E : Type ℓ} {A : Type κ} {a b : A} → ◌≡◌ {A = Result E A} (ok a) (ok b) → a ≡ b
ok-injective h = cc

map_err_ok {ℓ κ μ} :
    {E : Type ℓ} {F : Type κ} {A : Type μ} (f : E → F) (r : Result E A) (a : A)
    → map_err f r ≡ ok a
    → r ≡ ok a
map_err_ok f (ok x) a h = cc
map_err_ok f (err e) a h = cc

parse_id_ok :
    (kind : Kind) (text : Text) (v : ℕ)
    → parse_id kind text ≡ ok v
    → (v < 2 ^ 128) × (Identifier.display kind v ≡ text)
parse_id_ok kind text v h = parse_ok kind text v (map_err_ok _ (Identifier.parse kind text) v h)

ok_or_ok {ℓ κ} :
    {E : Type ℓ} {A : Type κ} (e : E) (o : Option A) (a : A) → ok_or e o ≡ ok a → o ≡ some a
ok_or_ok e none a h = cc
ok_or_ok e (some x) a h = cc

-- What a reader of containers promises for a text.
abbrev Reads : Text → Container → Type 0
Reads text c = FitsContainer c × (display_container c ≡ text)

-- The branch of a container that one identifier names.
one_id :
    (kind : Kind) (text : Text) (g : ℕ → Container) (c : Container)
    → ((v : ℕ) → v < 2 ^ 128 → Identifier.display kind v ≡ text → Reads text (g v))
    → (parse_id kind text >>= λ k. ok (g k)) ≡ ok c
    → Reads text c
one_id kind text g c reads h =
    let (v, p, q) = >>=-eq-ok (parse_id kind text) (λ k. ok (g k)) h in
    let (in_range, written) = parse_id_ok kind text v p in
    rw (sym (ok-injective q)) (reads v in_range written)

fixed :
    (text name : Text) (d c : Container)
    → text_eq text name ≡ true
    → Reads name d
    → ◌≡◌ {A = Result EntryIdentifierError Container} (ok d) (ok c)
    → Reads text c
fixed text name d c e r h = rw (text_eq→eq text name e) (rw (sym (ok-injective h)) r)

parse_case_ok :
    (text archive case : Text) (c : Container)
    → text ≡ archive ++ (b'/' ∷ case)
    → parse_case text archive case ≡ ok c
    → Reads text c
unfolding display_container
parse_case_ok text archive case c e h =
    elim (Bool-cases (
      carries_prefix Kind.archive archive
      && (carries_prefix Kind.case case && not (contains b'/' case)))) [
        | inr g ↦ absurd (cc (rw g at h))
        | inl g ↦
            let (a, p, q) =
              >>=-eq-ok (parse_id Kind.archive archive)
                (λ a. parse_id Kind.case case >>= λ c. ok (Container.case a c)) (rw g at h) in
            let (k, r, s) = >>=-eq-ok (parse_id Kind.case case) (λ c. ok (Container.case a c)) q in
            let (a_fits, a_text) = parse_id_ok Kind.archive archive a p in
            let (k_fits, k_text) = parse_id_ok Kind.case case k r in
            rw (sym (ok-injective s)) ((a_fits, k_fits), rw (a_text, k_text) (sym e))
      ]

parse_plain_ok : (text : Text) (c : Container) → parse_plain text ≡ ok c → Reads text c
unfolding display_container
parse_plain_ok text c h = elim (Bool-cases (text_eq text text_root)) [
  | inl e ↦ fixed text text_root Container.root c e (tt, refl) (rw e at h)
  | inr e₀ ↦ elim (Bool-cases (text_eq text text_baskets)) [
    | inl e ↦ fixed text text_baskets Container.baskets c e (tt, refl) (rw (e₀, e) at h)
    | inr e₁ ↦ elim (Bool-cases (text_eq text text_archives)) [
      | inl e ↦ fixed text text_archives Container.archives c e (tt, refl) (rw (e₀, e₁, e) at h)
      | inr e₂ ↦ elim (Bool-cases (text_eq text text_searches)) [
        | inl e ↦
            fixed text text_searches Container.searches c e (tt, refl) (rw (e₀, e₁, e₂, e) at h)
        | inr e₃ ↦
            ids (carries_prefix Kind.basket text) (carries_prefix Kind.archive text)
              (carries_prefix Kind.search text) (rw (e₀, e₁, e₂, e₃) at h)
      ]
    ]
  ]
]
  where
    ids :
        (b a s : Bool)
        → (if b
            then (parse_id Kind.basket text >>= λ k. ok (Container.basket k))
            else if a
            then (parse_id Kind.archive text >>= λ k. ok (Container.archive k))
            else if s
            then (parse_id Kind.search text >>= λ k. ok (Container.search k))
            else err (shape text))
          ≡ ok c
        → Reads text c
    ids true a s h = one_id Kind.basket text Container.basket c (λ v f w. (f, w)) h
    ids false true s h = one_id Kind.archive text Container.archive c (λ v f w. (f, w)) h
    ids false false true h = one_id Kind.search text Container.search c (λ v f w. (f, w)) h
    ids false false false h = cc

-- A text that is accepted as a container is the text of the container.
pub parse_container_ok : (text : Text) (c : Container) → parse_container text ≡ ok c → Reads text c
unfolding parse_container
parse_container_ok text c h = elim (Option-cases (split_once b'/' text)) [
  | inl e ↦ parse_plain_ok text c (rw (e, parse_container) at h)
  | inr ((archive, case), e) ↦
      parse_case_ok text archive case c (append-split_once b'/' text archive case e)
        (rw (e, parse_container) at h)
]

from_location-location : (c : Container) (l : Location) → location c ≡ some l → from_location l ≡ c
unfolding location from_location
from_location-location c l h = ground arith

-- What a reader of entries promises for a text.
abbrev pub ReadsEntry : Text → EntryIdentifier → Type 0
ReadsEntry text e = Fits e × (display_entry e ≡ text)

plain_entry_ok :
    (text : Text) (e : EntryIdentifier)
    → (parse_container text >>= λ c. ok (EntryIdentifier.container c)) ≡ ok e
    → ReadsEntry text e
unfolding display_entry
plain_entry_ok text e h =
    let (c, p, q) = >>=-eq-ok (parse_container text) (λ c. ok (EntryIdentifier.container c)) h in
    rw (sym (ok-injective q)) (parse_container_ok text c p)

hint_ok :
    (text front back : Text) (kind : HintKind) (e : EntryIdentifier)
    → text ≡ front ++ (b'/' ∷ back)
    → text_eq back (text_hint kind) ≡ true
    → (parse_container front >>= λ l. ok (EntryIdentifier.hint l kind)) ≡ ok e
    → ReadsEntry text e
unfolding display_entry
hint_ok text front back kind e t b h =
    let (c, p, q) = >>=-eq-ok (parse_container front) (λ l. ok (EntryIdentifier.hint l kind)) h in
    let (fits, written) = parse_container_ok front c p in
    rw (sym (ok-injective q)) (fits, rw (written, sym (text_eq→eq back (text_hint kind) b)) (sym t))

document_ok :
    (text front back : Text) (e : EntryIdentifier)
    → text ≡ front ++ (b'/' ∷ back)
    → (do
      c ← parse_container front
      l ← ok_or (shape text) (location c)
      d ← parse_id Kind.document back
      ok (EntryIdentifier.document l d))
      ≡ ok e
    → ReadsEntry text e
unfolding display_entry
document_ok text front back e t h =
    let (c, p, h₁) =
      >>=-eq-ok (parse_container front)
        (λ c. ok_or (shape text) (location c) >>= λ l.
          parse_id Kind.document back >>= λ d. ok (EntryIdentifier.document l d))
        h in
    let (l, q, h₂) =
      >>=-eq-ok (ok_or (shape text) (location c))
        (λ l. parse_id Kind.document back >>= λ d. ok (EntryIdentifier.document l d)) h₁ in
    let (d, r, h₃) =
      >>=-eq-ok (parse_id Kind.document back) (λ d. ok (EntryIdentifier.document l d)) h₂ in
    let (fits, written) = parse_container_ok front c p in
    let (d_fits, d_text) = parse_id_ok Kind.document back d r in
    let at : from_location l ≡ c =
      from_location-location c l (ok_or_ok (shape text) (location c) l q) in
    rw (sym (ok-injective h₃)) ((rw at fits, d_fits), rw (at, written, d_text) (sym t))

below :
    (text front back : Text) (e : EntryIdentifier)
    → text ≡ front ++ (b'/' ∷ back)
    → parse_below text front back ≡ ok e
    → ReadsEntry text e
below text front back e t h = elim (Bool-cases (text_eq back (text_hint HintKind.read_me))) [
  | inl b ↦ hint_ok text front back HintKind.read_me e t b (rw b at h)
  | inr b₀ ↦ elim (Bool-cases (text_eq back (text_hint HintKind.truncated))) [
    | inl b ↦ hint_ok text front back HintKind.truncated e t b (rw (b₀, b) at h)
    | inr b₁ ↦ elim (Bool-cases (carries_prefix Kind.document back)) [
      | inl b ↦ document_ok text front back e t (rw (b₀, b₁, b) at h)
      | inr b ↦ plain_entry_ok text e (rw (b₀, b₁, b) at h)
    ]
  ]
]

-- A text that is read as an entry identifier is the text that is written for it, and all its
-- values have 128 bits.
pub parse_entry_ok :
    (text : Text) (e : EntryIdentifier)
    → parse_entry text ≡ ok e
    → Fits e × (display_entry e ≡ text)
unfolding parse_entry
parse_entry_ok text e h = elim (Option-cases (rsplit_once b'/' text)) [
  | inl n ↦ plain_entry_ok text e (rw (n, parse_entry) at h)
  | inr ((front, back), s) ↦
      below text front back e (append-rsplit_once b'/' text front back s) (rw (s, parse_entry) at h)
]
