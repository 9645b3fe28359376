-- ===== src/Anchor/RoundTrip.antt =====
-- crates/fileprovider/src/anchor.rs: writing and reading of anchors and page markers.
use elasticdms_desktop.Prelude.{
  ℕ, ◌<◌, ◌^◌, ◌≡◌, ◌∙◌, sym, ap, List, [], ◌∷◌, ◌++◌, length, ok, be_bytes, from_be_bytes, take,
  drop, take-length, drop-drop, take-append-drop, be_bytes-slice, from_be_bytes-be_bytes,
  be_bytes-from_be_bytes, length-drop, All, IsByte, arith,
}
use elasticdms_desktop.Anchor.{
  Anchor, PageMarker, bytes, read, marker_bytes, marker_read, marker_of,
}

-- Every anchor with a 64-bit sequence number is read back from its bytes.
pub read-bytes : (a : Anchor) → a.sequence < 2 ^ 64 → read (bytes a) ≡ ok a
unfolding read bytes be_bytes
read-bytes a h =
    ap (λ (n : ℕ). ok (record { sequence = n })) (from_be_bytes-be_bytes 8 a.sequence h)

accepted :
    (v : ℕ) (rest : List ℕ) (a : Anchor)
    → read (v ∷ rest) ≡ ok a
    → (length rest ≡ 8) × (v ≡ 1) × (record { sequence = from_be_bytes (take 8 rest) } ≡ a)
unfolding read
accepted v rest a h = ground arith

-- A field of bytes is accepted as an anchor only if it is the bytes of that anchor.
pub bytes-read :
    (field : List ℕ) (a : Anchor) → All IsByte field → read field ≡ ok a → bytes a ≡ field
unfolding read bytes
bytes-read [] a b h = absurd (ground arith)
bytes-read (v ∷ rest) a b h =
    let (n, w, e) = accepted v rest a h in
    rw (sym e, w)
      (ap (λ (bs : List ℕ). 1 ∷ bs)
        (ap (λ (bs : List ℕ). be_bytes 8 (from_be_bytes bs)) (take-length 8 rest n)
          ∙ ap (λ (w : ℕ). be_bytes w (from_be_bytes rest)) (sym n)
          ∙ be_bytes-from_be_bytes rest b.1))

-- Every page marker whose fields fit their widths is read back from its bytes.
pub marker_read-marker_bytes :
    (m : PageMarker)
    → m.container_index < 2 ^ 32
    → m.offset < 2 ^ 32
    → m.plan < 2 ^ 64
    → m.children < 2 ^ 64
    → marker_read (marker_bytes m) ≡ ok m
unfolding marker_read marker_bytes be_bytes
marker_read-marker_bytes m hi ho hp hc = λ i. ok (record {
  container_index = from_be_bytes-be_bytes 4 m.container_index hi i;
  offset = from_be_bytes-be_bytes 4 m.offset ho i;
  plan = from_be_bytes-be_bytes 8 m.plan hp i;
  children = from_be_bytes-be_bytes 8 m.children hc i;
})

marker_accepted :
    (v : ℕ) (rest : List ℕ) (m : PageMarker)
    → marker_read (v ∷ rest) ≡ ok m
    → (length rest ≡ 24) × (v ≡ 1) × (marker_of (v ∷ rest) ≡ m)
unfolding marker_read
marker_accepted v rest m h = ground arith

four_fields :
    (rest : List ℕ)
    → length rest ≡ 24
    → take 4 rest ++ (take 4 (drop 4 rest) ++ (take 8 (drop 8 rest) ++ take 8 (drop 16 rest)))
      ≡ rest
four_fields rest n =
    ap (λ t. take 4 rest ++ t)
      (ap (λ t. take 4 (drop 4 rest) ++ t)
          (ap (λ t. take 8 (drop 8 rest) ++ t)
              (take-length 8 (drop 16 rest) (omega (arith, length-drop 16 rest))
                ∙ sym (drop-drop 8 8 rest))
            ∙ take-append-drop 8 (drop 8 rest)
            ∙ sym (drop-drop 4 4 rest))
        ∙ take-append-drop 4 (drop 4 rest))
    ∙ take-append-drop 4 rest

-- A field of bytes is accepted as a page marker only if it is the bytes of that marker.
pub marker_bytes-marker_read :
    (field : List ℕ) (m : PageMarker)
    → All IsByte field
    → marker_read field ≡ ok m
    → marker_bytes m ≡ field
unfolding marker_bytes marker_read
marker_bytes-marker_read [] m b h = absurd (ground arith)
marker_bytes-marker_read (v ∷ rest) m b h =
    let (n, w, e) = marker_accepted v rest m h in
    rw (sym e, w)
      (ap (λ (bs : List ℕ). 1 ∷ bs)
        (rw
          (
            be_bytes-slice 0 4 rest b.1 (omega arith),
            be_bytes-slice 4 4 rest b.1 (omega arith),
            be_bytes-slice 8 8 rest b.1 (omega arith),
            be_bytes-slice 16 8 rest b.1 (omega arith),
          )
          (four_fields rest n)))
