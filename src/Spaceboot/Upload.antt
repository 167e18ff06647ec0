-- ===== src/Spaceboot/Upload.antt =====
-- spaceboot_slash.c: the upload of an image and its check. The transfers are the vmem library's.
pub mod Checked
use csh.Prelude.{
  ℕ, suc, ◌+◌, ◌-◌, ◌*◌, Option, none, some, List, [], ◌∷◌, if◌then◌else◌, ◌==◌, length,
}
use csh.Prelude.Int.{ℤ, pos, pos_part, ltb_ℤ, eq_ℤ}
use csh.Slash.{Status, success, einval, eio, enomem, enospc}

-- what `vmem_upload` returns: CSP_ERR_TIMEDOUT, CSP_ERR_NOBUFS, or another number
pub data Uploaded : Type 0 where
  timed_out : Uploaded
  no_buffers : Uploaded
  count : ℤ → Uploaded

-- The status, and the offset that is suggested for the next try.
pub record UploadEnd : Type 0 where
  pub status : Status
  pub suggested_offset : Option ℕ

-- `window` is the RDP window, `mtu` is VMEM_SERVER_MTU.
abbrev pub suggested : ℕ → ℕ → ℤ → ℕ
suggested window mtu n =
    if ltb_ℤ (pos (suc window * mtu)) n then pos_part n - suc window * mtu else 0

unfoldable pub do_upload : ℕ → ℕ → ℕ → Uploaded → UploadEnd
do_upload window mtu len timed_out = record { status = eio; suggested_offset = none }
do_upload window mtu len no_buffers = record { status = enomem; suggested_offset = none }
do_upload window mtu len (count n) =
    if eq_ℤ n (pos len)
    then record { status = success; suggested_offset = none }
    else record { status = eio; suggested_offset = some (suggested window mtu n) }

-- the first index where the bytes that were read back differ
unfoldable pub first_diff : ℕ → List ℕ → List ℕ → Option ℕ
first_diff i (x ∷ datain) (y ∷ bytes) =
    let later = first_diff (suc i) datain bytes in if x == y then later else some i
first_diff i _ _ = none

-- behind the upload, with the bytes that are read back, as many as the image has
unfoldable pub verify : Status → List ℕ → List ℕ → Status
unfolding first_diff
verify success datain bytes = elim (first_diff 0 datain bytes) [ none ↦ success | some i ↦ einval ]
verify failed datain bytes = failed

unfoldable pub upload_and_verify : ℕ → ℕ → Uploaded → List ℕ → List ℕ → Status
unfolding do_upload verify
upload_and_verify window mtu uploaded datain bytes =
    verify (do_upload window mtu (length bytes) uploaded).status datain bytes

-- The check of `program` and `sps` with a checksum: the node's, or none if the node does not answer.
unfoldable pub compare_crc32 : Status → ℕ → Option ℕ → Status
compare_crc32 success crc (some crc_node) = if crc_node == crc then success else enospc
compare_crc32 success crc none = enospc
compare_crc32 failed crc crc_node = failed

unfoldable pub upload_and_compare : ℕ → ℕ → Uploaded → ℕ → Option ℕ → List ℕ → Status
unfolding do_upload compare_crc32
upload_and_compare window mtu uploaded crc crc_node bytes =
    compare_crc32 (do_upload window mtu (length bytes) uploaded).status crc crc_node
