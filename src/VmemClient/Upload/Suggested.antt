-- ===== src/VmemClient/Upload/Suggested.antt =====
-- vmem_client_slash_ftp.c: an upload that is cut off, and the one that goes on at the suggested offset.
use csh.Prelude.{
  ℕ, zero, suc, ◌+◌, ◌-◌, ◌*◌, ◌%◌, ◌^◌, ◌≤◌, ◌<◌, ◌≡◌, ◌∙◌, refl, true, false, ap, inl, inr, Bytes,
  Option, some, List, [], ◌∷◌, Bool-cases, if◌then◌else◌, ltb, length, length-drop, drop, get_elem?,
  arith,
}
use csh.Prelude.Int.{ℤ, pos, eq_ℤ, ◌+ℤ◌}
use csh.Locks.{to_uint32}
use csh.Slash.{eio}
use csh.VmemClient.Download.{CspErrors, World}
use csh.VmemClient.Download.Resumed.{IsError}
use csh.VmemClient.Upload.{UploadAnswers, suggested_offset, upload_end, upload_file}

-- what the node's memory holds behind an upload of these bytes, of which the first `count` arrived
abbrev pub store : ℕ → Bytes → ℕ → (ℕ → Option ℕ) → ℕ → Option ℕ
store address bytes count memory x =
    if ltb x address
    then memory x
    else if ltb (x - address) count
    then get_elem? bytes (x - address)
    else memory x

get_elem?-drop {ℓ} :
    {A : Type ℓ} (n i : ℕ) (xs : List A) → get_elem? (drop n xs) i ≡ get_elem? xs (n + i)
get_elem?-drop zero i xs = let e : 0 + i ≡ i = omega arith in rw e
get_elem?-drop (suc n) i [] = refl
get_elem?-drop (suc n) i (x ∷ xs) =
    let e : suc n + i ≡ suc (n + i) = omega arith in rw e (get_elem?-drop n i xs)

-- The first `n` bytes of the file are in the node's memory.
abbrev pub Stored : (ℕ → Option ℕ) → Bytes → ℕ → ℕ → Type 0
Stored memory content address n = (i : ℕ) → i < n → memory (address + i) ≡ get_elem? content i

-- Behind the upload of the rest from `s` on, all of the file is there.
store-Stored :
    (memory : ℕ → Option ℕ) (content : Bytes) (address s n : ℕ)
    → s ≤ n
    → Stored memory content address n
    → (i : ℕ) → i < length content
    → store (address + s) (drop s content) (length content - s) memory (address + i)
      ≡ get_elem? content i
store-Stored memory content address s n le stored i lt =
    elim (Bool-cases (ltb (address + i) (address + s))) [
      | inl before ↦ rw before (stored i (ground arith))
      | inr behind ↦
          let le' : s ≤ i = ground arith in
          let at : address + i - (address + s) ≡ i - s = omega arith in
          let inside : ltb (i - s) (length content - s) ≡ true = ground arith in
          let same : s + (i - s) ≡ i = omega arith in
          rw behind
            (rw at (rw inside (get_elem?-drop s (i - s) content ∙ ap (get_elem? content) same)))
    ]

reached_lem :
    (offset count : ℕ)
    → offset + count < 2 ^ 32
    → to_uint32 (pos offset +ℤ pos count) ≡ offset + count
unfolding ◌+ℤ◌
reached_lem offset count h = ground arith

suggested_offset_lem :
    (reached window : ℕ)
    → (suggested_offset reached window ≤ reached)
      × (suggested_offset reached window ≡ reached - window)
suggested_offset_lem reached window = ground arith

small_mod32 : (k : ℕ) → k < 2 ^ 32 → k % 2 ^ 32 ≡ k
small_mod32 k h = omega arith

upload_end-sent :
    (c : CspErrors) (a : UploadAnswers) (to : ℕ) (bytes : Bytes) (count : ℤ) (w : World)
    → (upload_end c a to bytes count w).sent ≡ some (to, bytes)
unfolding upload_end
upload_end-sent c a to bytes count w = elim (Bool-cases (eq_ℤ count c.timedout)) [
  | inl e ↦ rw e refl
  | inr e ↦ rw e (elim (Bool-cases (eq_ℤ count c.nobufs)) [
    | inl f ↦ rw f refl
    | inr f ↦ rw f (elim (Bool-cases (eq_ℤ count (pos (length bytes)))) [
      | inl g ↦ rw g refl
      | inr g ↦ rw g refl
    ])
  ])
]

module _ (c : CspErrors) (timedout : IsError c.timedout) (nobufs : IsError c.nobufs) where
  -- An upload that is cut off behind `count` bytes of the rest of a file fails, with an offset to resume from.
  -- Whatever the node then holds: if it has the file up to the bytes counted, less one window of packets,
  -- an upload from that offset asks for the bytes that complete the file in its memory.
  pub upload_file-Resumes :
      (a : UploadAnswers) (content : Bytes) (address count : ℕ) (w : World)
      → a.vmem_upload (address + a.offset) (drop a.offset content) ≡ pos count
      → a.offset + count < length content
      → length content < 2 ^ 31
      → address + length content < 2 ^ 64
      → (w.rdp.csp.window + 1) * a.mtu < 2 ^ 32
      → ((upload_file c a (some content) address w).status ≡ eio)
        × ((s : ℕ) × ((upload_file c a (some content) address w).suggested ≡ some s)
            × ((a' : UploadAnswers) (w' : World)
                → a'.offset ≡ s
                → (upload_file c a' (some content) address w').sent
                  ≡ some (address + s, drop s content))
            × ((memory : ℕ → Option ℕ)
                → Stored memory content address (a.offset + count - (w.rdp.csp.window + 1) * a.mtu)
                → Stored
                    (store (address + s) (drop s content) (length content - s) memory)
                    content
                    address
                    (length content)))
  unfolding upload_file upload_end
  upload_file-Resumes a content address count w answered less small room fits =
      let k = (w.rdp.csp.window + 1) * a.mtu in
      let s = suggested_offset (a.offset + count) k in
      let (le, s_is) = suggested_offset_lem (a.offset + count) k in
      let to : (address + a.offset) % 2 ^ 64 ≡ address + a.offset = omega arith in
      let k' : k % 2 ^ 32 ≡ k = small_mod32 k fits in
      let reached = reached_lem (a.offset) count (omega arith) in
      let part : eq_ℤ (pos count) (pos (length (drop a.offset content))) ≡ false =
        ground (arith, length-drop (a.offset) content) in
      (
        rw to (rw answered (rw (timedout count) (rw (nobufs count) (rw part refl)))),
        (
          s,
          rw to (
              rw answered
                (rw (timedout count) (rw (nobufs count) (rw part (rw reached (rw k' refl)))))),
          λ a' w' e.
              let to' : (address + a'.offset) % 2 ^ 64 ≡ address + s = omega arith in
              let at = (address + a'.offset) % 2 ^ 64 in
              let bytes = drop (a'.offset) content in
              upload_end-sent c a' at bytes (a'.vmem_upload at bytes) w'
              ∙ rw to' (ap (λ (o : ℕ). some (address + s, drop o content)) e),
          λ memory stored.
              store-Stored memory content address s (a.offset + count - k) (omega arith) stored,
        ),
      )
