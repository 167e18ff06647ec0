-- ===== src/Spaceboot/Upload/Checked.antt =====
-- spaceboot_slash.c: when an upload counts as done.
use csh.Prelude.{
  ℕ, suc, ◌+◌, ◌-◌, ◌*◌, ◌≤◌, ◌≡◌, ◌⊎◌, refl, none, some, List, [], ◌∷◌, if◌then◌else◌, length, ◌↔◌,
  ap, Option-cases, arith, Bool-cases, inl, inr, true,
}
use csh.Prelude.Int.{ℤ, pos, pos_part, negsuc, ltb_ℤ, eq_ℤ}
use csh.Slash.{Status, success, einval, eio, enomem, enospc, eusage, ebreak, exit}
use csh.Spaceboot.Upload.{
  Uploaded, timed_out, no_buffers, count, UploadEnd, suggested, do_upload, first_diff, verify,
  upload_and_verify,
}

-- How an upload of `len` bytes ends, by what the library returned.
abbrev pub Ends : ℕ → ℕ → ℕ → Uploaded → UploadEnd → Type 0
Ends window mtu len timed_out e = (e.status ≡ eio) × (e.suggested_offset ≡ none)
Ends window mtu len no_buffers e = (e.status ≡ enomem) × (e.suggested_offset ≡ none)
Ends window mtu len (count n) e =
    ((n ≡ pos len) × (e.status ≡ success) × (e.suggested_offset ≡ none))
    ⊎ ((e.status ≡ eio)
        × ((o : ℕ) × (e.suggested_offset ≡ some o)
            × (o ≤ pos_part n)
            × (pos_part n ≤ o + suc window * mtu)))

-- the offset, for a window of k bytes
behind : ℕ → ℤ → ℕ
behind k n = if ltb_ℤ (pos k) n then pos_part n - k else 0

behind_lem : (k : ℕ) (n : ℤ) → (behind k n ≤ pos_part n) × (pos_part n ≤ behind k n + k)
unfolding behind
behind_lem k (pos n) = ground arith
behind_lem k (negsuc n) = ground arith

suggested-behind : (window mtu : ℕ) (n : ℤ) → suggested window mtu n ≡ behind (suc window * mtu) n
unfolding behind
suggested-behind window mtu n = refl

-- `do_upload` succeeds only if all bytes were counted. A time-out and a lack of buffers are their own
-- errors; any other count gives SLASH_EIO, with an offset to resume from that is not beyond the bytes
-- counted, and at most one window of packets before their end.
pub do_upload-Ends :
    (window mtu len : ℕ) (uploaded : Uploaded)
    → Ends window mtu len uploaded (do_upload window mtu len uploaded)
unfolding do_upload
do_upload-Ends window mtu len timed_out = (refl, refl)
do_upload-Ends window mtu len no_buffers = (refl, refl)
do_upload-Ends window mtu len (count n) = elim (Bool-cases (eq_ℤ n (pos len))) [
  | inl all ↦ rw all (inl (ground arith, refl, refl))
  | inr part ↦
      let k = suc window * mtu in
      let (low, high) = behind_lem k n in
      rw part (inr (refl, (behind k n, ap some (suggested-behind window mtu n), low, high)))
]

first_diff-same : (i : ℕ) (a b : List ℕ) → length a ≡ length b → first_diff i a b ≡ none → a ≡ b
unfolding first_diff
first_diff-same i [] [] h e = refl
first_diff-same i [] (y ∷ b) h e = cc
first_diff-same i (x ∷ a) [] h e = cc
first_diff-same i (x ∷ a) (y ∷ b) h e = ground (arith, first_diff-same (suc i) a b)

first_diff_self : (i : ℕ) (a : List ℕ) → first_diff i a a ≡ none
unfolding first_diff
first_diff_self i [] = refl
first_diff_self i (x ∷ a) = ground (arith, first_diff_self (suc i) a)

verify-success :
    (s : Status) (datain bytes : List ℕ)
    → length datain ≡ length bytes
    → verify s datain bytes ≡ success
    → (s ≡ success) × (datain ≡ bytes)
unfolding verify
verify-success success datain bytes h e = elim (Option-cases (first_diff 0 datain bytes)) [
  | inl none_differ ↦ (refl, first_diff-same 0 datain bytes h none_differ)
  | inr (i, differ) ↦ absurd (cc (rw (differ, verify) at e))
]
verify-success einval datain bytes h e = cc
verify-success eusage datain bytes h e = cc
verify-success enomem datain bytes h e = cc
verify-success ebreak datain bytes h e = cc
verify-success exit datain bytes h e = cc
verify-success eio datain bytes h e = cc
verify-success enospc datain bytes h e = cc

pub do_upload-success :
    (window mtu len : ℕ) (uploaded : Uploaded)
    → (do_upload window mtu len uploaded).status ≡ success
    → uploaded ≡ count (pos len)
unfolding do_upload
do_upload-success window mtu len timed_out e = cc
do_upload-success window mtu len no_buffers e = cc
do_upload-success window mtu len (count n) e = elim (Bool-cases (eq_ℤ n (pos len))) [
  | inl all ↦ ap count (ground arith)
  | inr part ↦ absurd (cc (rw part at e))
]

verified :
    (window mtu : ℕ) (bytes : List ℕ)
    → upload_and_verify window mtu (count (pos (length bytes))) bytes bytes ≡ success
unfolding upload_and_verify do_upload verify
verified window mtu bytes =
    let all : eq_ℤ (pos (length bytes)) (pos (length bytes)) ≡ true = ground arith in
    rw all (rw (first_diff_self 0 bytes, verify) refl)

-- `upload_and_verify` succeeds exactly if all bytes of the image were counted, and as many bytes that
-- were read back are those of the image.
pub upload_and_verify-success :
    (window mtu : ℕ) (uploaded : Uploaded) (datain bytes : List ℕ)
    → length datain ≡ length bytes
    → (upload_and_verify window mtu uploaded datain bytes ≡ success)
      ↔ ((uploaded ≡ count (pos (length bytes))) × (datain ≡ bytes))
upload_and_verify-success window mtu uploaded datain bytes h = (
  λ e.
      let (up, same) =
        verify-success (do_upload window mtu (length bytes) uploaded).status datain bytes h
          (unfold upload_and_verify in e) in
      (do_upload-success window mtu (length bytes) uploaded up, same),
  λ p. rw (p.0, p.1) (verified window mtu bytes),
)
