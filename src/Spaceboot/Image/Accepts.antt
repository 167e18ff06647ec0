-- ===== src/Spaceboot/Image/Accepts.antt =====
-- spaceboot_slash.c: which images are accepted.
use csh.Prelude.{
  ℕ, ◌+◌, ◌-◌, ◌%◌, ◌^◌, ◌≤◌, ◌<◌, ◌≡◌, ◌⊎◌, inl, inr, refl, Option, none, some, List, [], ◌∷◌,
  Bool-cases, Option-cases, true, false, length, ltb, take, drop, bytes_eq_iff, arith, Bytes,
}
use csh.Spaceboot.Image.{
  word_at, Area, is_inside, fits_area, Verdict, refused, identified, vector, test_vectors,
  entry_offsets, test_magic, judge, test_image, read_ident, has_marker, end_marker,
}

-- The address lies in the area, or outside of it.
abbrev pub Inside : Area → ℕ → Type 0
Inside area addr = (area.addr_min ≤ addr) × (addr ≤ area.addr_max)

abbrev pub Outside : Area → ℕ → Type 0
Outside area addr = (addr < area.addr_min) ⊎ (area.addr_max < addr)

-- Where the image ends behind the first address of the area, on 32 bits.
abbrev pub end_in : Area → List ℕ → ℕ
end_in area image = (area.addr_min + length image) % 2 ^ 32

-- The image ends in the marker.
abbrev pub IsMarked : List ℕ → Type 0
IsMarked image = take 4 (drop (length image - 4) image) ≡ 192 ∷ 222 ∷ 186 ∷ 208 ∷ []

-- the word in front of the marker
abbrev pub entry_point : List ℕ → ℕ
entry_point image = word_at (length image - 8) image

-- What each answer says of the image. None is a fault, in the search for strings.
abbrev pub Judged : Area → List ℕ → Option Verdict → Type 0
Judged area image none =
    IsMarked image × Inside area (entry_point image) × (end_in area image ≤ area.addr_max)
Judged area image (some refused) =
    (area.addr_max < end_in area image)
    ⊎ (IsMarked image × Outside area (entry_point image))
    ⊎ (Outside area (word_at 4 image) × Outside area (word_at 708 image))
Judged area image (some (identified ident)) =
    IsMarked image
    × (ident.stext ≡ entry_point image)
    × Inside area (entry_point image)
    × (end_in area image ≤ area.addr_max)
Judged area image (some vector) =
    (Inside area (word_at 4 image) ⊎ Inside area (word_at 708 image))
    × (end_in area image ≤ area.addr_max)

is_inside-Inside : (area : Area) (addr : ℕ) → is_inside area addr ≡ true → Inside area addr
is_inside-Inside area addr h = ground arith

is_inside-Outside : (area : Area) (addr : ℕ) → is_inside area addr ≡ false → Outside area addr
is_inside-Outside area addr h = ground arith

fits_area-true :
    (area : Area) (image : List ℕ) → fits_area area image ≡ true → end_in area image ≤ area.addr_max
fits_area-true area image h = ground arith

fits_area-false :
    (area : Area) (image : List ℕ)
    → fits_area area image ≡ false
    → area.addr_max < end_in area image
fits_area-false area image h = ground arith

long_enough : (n k : ℕ) → k + 4 ≤ n → ltb n (k + 4) ≡ false
long_enough n k h = ground arith

test_vectors-Judged :
    (area : Area) (image : List ℕ)
    → 712 ≤ length image
    → fits_area area image ≡ true
    → Judged area image (test_vectors area image entry_offsets)
unfolding test_vectors
test_vectors-Judged area image long fits =
    let first = long_enough (length image) 4 (omega arith) in
    let second = long_enough (length image) 708 (omega arith) in
    let room = fits_area-true area image fits in
    elim (Bool-cases (is_inside area (word_at 4 image))) [
      | inl e ↦ rw (first, e) (inl (is_inside-Inside area (word_at 4 image) e), room)
      | inr e ↦ elim (Bool-cases (is_inside area (word_at 708 image))) [
        | inl f ↦ rw (first, e, second, f) (inr (is_inside-Inside area (word_at 708 image) f), room)
        | inr f ↦
            rw (first, e, second, f)
              (inr (
                inr (
                  is_inside-Outside area (word_at 4 image) e,
                  is_inside-Outside area (word_at 708 image) f,
                )))
      ]
    ]

test_magic-Judged :
    (area : Area) (image : List ℕ) → 712 ≤ length image → Judged area image (test_magic area image)
unfolding test_magic
test_magic-Judged area image long = elim (Bool-cases (fits_area area image)) [
  | inl fits ↦ rw fits (test_vectors-Judged area image long fits)
  | inr beyond ↦ rw beyond (inl (fits_area-false area image beyond))
]

judge-Judged :
    (area : Area) (image : List ℕ) (strings : List Bytes)
    → 712 ≤ length image
    → IsMarked image
    → Inside area (entry_point image)
    → end_in area image ≤ area.addr_max
    → Judged area image (judge area image (entry_point image) strings)
judge-Judged area image [] long marked inside fits = test_magic-Judged area image long
judge-Judged area image (s ∷ strings) long marked inside fits = (marked, refl, inside, fits)

-- The test of an image of at least 712 bytes. It is accepted for its strings only if it ends in the marker and the
-- word in front of this, which is the entry point of the answer, lies in the area, and without strings only if the
-- word at 4 or at 0x2c4 does; in both cases only if it ends in the area behind the area's first address, on 32
-- bits. It is refused only if it does not end there, or has the marker behind a word that lies outside, or if the
-- words at 4 and 0x2c4 both lie outside. Only the search for the strings, behind an entry point that lies in the
-- area, reads outside of the image.
pub test_image-Judged :
    (area : Area) (image : List ℕ) → 712 ≤ length image → Judged area image (test_image area image)
unfolding test_image
test_image-Judged area image long =
    let stext = entry_point image in
    let whole : ltb (length image) 8 ≡ false = ground arith in
    elim (Bool-cases (has_marker image (length image - 4) end_marker)) [
      | inr plain ↦ rw plain (test_magic-Judged area image long)
      | inl e ↦
          let marked : IsMarked image =
            (bytes_eq_iff (take 4 (drop (length image - 4) image)) end_marker).0 e in
          elim (Bool-cases (is_inside area stext)) [
            | inr outside ↦
                rw (e, whole, outside) (inr (inl (marked, is_inside-Outside area stext outside)))
            | inl inside ↦ elim (Bool-cases (fits_area area image)) [
              | inr beyond ↦ rw (e, whole, inside, beyond) (inl (fits_area-false area image beyond))
              | inl fits ↦
                  let lies = is_inside-Inside area stext inside in
                  let room = fits_area-true area image fits in
                  elim (Option-cases (read_ident (length image - 8) image)) [
                    | inl fault ↦ rw (e, whole, inside, fits, fault) (marked, lies, room)
                    | inr (strings, found) ↦
                        rw (e, whole, inside, fits, found)
                          (judge-Judged area image strings long marked lies room)
                  ]
            ]
          ]
    ]
