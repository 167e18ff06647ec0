-- ===== src/Spaceboot/Image.antt =====
-- spaceboot_slash.c: reading a firmware image, and the test whether it belongs into an area of memory.
-- An image is the list of its bytes; a read outside of it is a fault.
pub mod Accepts
use csh.Prelude.{
  ℕ, zero, suc, ◌+◌, ◌-◌, ◌*◌, ◌%◌, ◌^◌, Bytes, codes, bytes_eq, Option, none, some, List, [], ◌∷◌,
  ◌++◌, Bool, true, false, ◌&&◌, ◌||◌, if◌then◌else◌, ◌==◌, ltb, leb, length, take, drop, get_or,
  ◌>>=◌,
}

-- `image_get`, from the contents of the file; `none` is an error
unfoldable pub image_get : Option (List ℕ) → Option (List ℕ)
image_get none = none
image_get (some contents) =
    if ltb (2 ^ 31 - 1) (length contents) || ltb (length contents) 4 then none else some contents

-- a `uint32_t` in memory, on a little-endian machine
abbrev pub word_at : ℕ → List ℕ → ℕ
word_at i image =
    get_or image i 0
    + 256 * get_or image (i + 1) 0
    + 65536 * get_or image (i + 2) 0
    + 16777216 * get_or image (i + 3) 0

-- "\xC0\xDE\xBA\xD0" and "\xBA\xD0\xFA\xCE"
abbrev pub end_marker : List ℕ
end_marker = 192 ∷ 222 ∷ 186 ∷ 208 ∷ []

abbrev pub begin_marker : List ℕ
begin_marker = 186 ∷ 208 ∷ 250 ∷ 206 ∷ []

-- `memcmp(&data[i], marker, 4) == 0`
abbrev pub has_marker : List ℕ → ℕ → List ℕ → Bool
has_marker image i marker = bytes_eq (take 4 (drop i image)) marker

-- The area of memory, `addr_min` and `addr_max`
pub record Area : Type 0 where
  pub addr_min : ℕ
  pub addr_max : ℕ

abbrev pub is_inside : Area → ℕ → Bool
is_inside area addr = leb area.addr_min addr && leb addr area.addr_max

-- `addr_min + len <= addr_max`, on 32 bits
abbrev pub fits_area : Area → List ℕ → Bool
fits_area area image = leb ((area.addr_min + length image) % 2 ^ 32) area.addr_max

-- `bin_file_ident_t`, its three strings and `stext`
pub record Ident : Type 0 where
  pub strings : List Bytes
  pub stext : ℕ

-- The `do` loop, by the rounds that are left: the index behind the marker that begins the strings. The
-- outer `none` is a read in front of the image.
unfoldable pub find_begin : ℕ → ℕ → List ℕ → Option (Option ℕ)
find_begin zero i image = some none
find_begin (suc rounds) zero image = none
find_begin (suc rounds) (suc i) image =
    let later = find_begin rounds i image in
    if has_marker image i begin_marker then some (some (i + 4)) else later

-- the bytes in front of the first NUL; `none` if there is no NUL
unfoldable pub string_at : List ℕ → Option Bytes
string_at [] = none
string_at (c ∷ cs) = if c == 0 then some [] else (string_at cs >>= λ text. some (c ∷ text))

-- the `for` loop over the strings, with those that are left
unfoldable pub read_strings : ℕ → ℕ → List ℕ → Option (List Bytes)
unfolding string_at
read_strings zero i image = some []
read_strings (suc n) i image =
    if ltb i (length image - 4)
    then (string_at (drop i image) >>= λ text.
        read_strings n (i + length text + 1) image >>= λ others. some (take 32 text ∷ others))
    else some []

-- step 3.2.1 and 3.2.2, from the first index of the entry point's address on
unfoldable pub read_ident : ℕ → List ℕ → Option (List Bytes)
unfolding find_begin read_strings
read_ident i image = do
  begin ← find_begin 249 i image
  elim begin [ none ↦ some [] | some j ↦ read_strings 3 j image ]

-- What the test answers: the image is refused, or accepted with its strings or without.
pub data Verdict : Type 0 where
  refused : Verdict
  identified : Ident → Verdict
  vector : Verdict

-- step 4: the entry points at 4 and 0x2c4
unfoldable pub test_vectors : Area → List ℕ → List ℕ → Option Verdict
test_vectors area image [] = some refused
test_vectors area image (offset ∷ offsets) =
    let later = test_vectors area image offsets in
    if ltb (length image) (offset + 4)
    then none
    else if is_inside area (word_at offset image)
    then some vector
    else later

abbrev pub entry_offsets : List ℕ
entry_offsets = 4 ∷ 708 ∷ []

unfoldable pub test_magic : Area → List ℕ → Option Verdict
unfolding test_vectors
test_magic area image =
    if fits_area area image then test_vectors area image entry_offsets else some refused

-- the verdict on the strings that were found
abbrev pub judge : Area → List ℕ → ℕ → List Bytes → Option Verdict
judge area image stext [] = test_magic area image
judge area image stext (s ∷ strings) =
    some (identified (record { strings = s ∷ strings; stext = stext }))

-- from step 3 on, for an image of at least 4 bytes
unfoldable pub test_image : Area → List ℕ → Option Verdict
unfolding read_ident test_magic bytes_eq
test_image area image =
    let stext = word_at (length image - 8) image in
    if has_marker image (length image - 4) end_marker
    then if ltb (length image) 8
      then none
      else if is_inside area stext && fits_area area image
      then (read_ident (length image - 8) image >>= λ strings. judge area image stext strings)
      else some refused
    else test_magic area image

-- the name ends in ".bin"
abbrev pub is_bin : Bytes → Bool
is_bin path = ltb 4 (length path) && bytes_eq (drop (length path - 4) path) (codes ".bin")

-- The files are a parameter. `none` is a fault.
unfoldable pub is_valid_binary : (Bytes → Option (List ℕ)) → Area → Bytes → Option Verdict
unfolding image_get test_image
is_valid_binary read_file area path =
    if is_bin path
    then elim (image_get (read_file path)) [
      | none ↦ some refused
      | some image ↦ test_image area image
    ]
    else some refused
