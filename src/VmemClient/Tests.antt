-- ===== src/VmemClient/Tests.antt =====
-- vmem_client_slash_ftp.c on a memory that counts up, and its theorems at inputs that meet their hypotheses.
use csh.Prelude.{
  ℕ, zero, suc, ◌+◌, ◌*◌, ◌-◌, ◌%◌, ◌≡◌, refl, inl, Bytes, bytes_eq, codes, Option, none, some,
  List, [], ◌∷◌, true, false, arith, drop, length,
}
use csh.Prelude.Int.{ℤ, pos, negsuc, eq_ℤ}
use csh.Libc.{strtoul, format_u, to_int}
use mathlib.Core.Option
use csh.KnownHosts.{at_end}
use csh.Slash.{Status, eio}
use csh.SlashUtils.{parse_length}
use csh.VmemClient.Rdp.{RdpOptions}
use csh.VmemClient.Download.{CspErrors, Answers, World, slash_download}
use csh.VmemClient.Download.Resumed.{IsHonest, IsComplete, Ends}
use csh.VmemClient.Download.Runs.{
  IsCommand, slash_download-Ends, resume_downloads, GoodRun, Receives, resume_downloads-IsComplete,
}
use csh.VmemClient.Upload.{UploadAnswers, upload_file}
use csh.VmemClient.Upload.Suggested.{upload_file-Resumes, Stored, store}

abbrev errors : CspErrors
errors = record { timedout = negsuc 2; nobufs = negsuc 3 }

abbrev options : RdpOptions
options = record {
  window = 3;
  conn_timeout = 10000;
  packet_timeout = 5000;
  delayed_acks = 1;
  ack_timeout = 2000;
  ack_count = 2;
}

abbrev world : World
world = record { files = λ p. none; rdp = record { dfl = options; tmp = options; csp = options } }

abbrev memory : ℕ → ℕ
memory x = x % 251

-- One byte for each run.
abbrev one_byte : ℕ → ℕ → ℤ × Bytes
one_byte at zero = (pos 0, [])
one_byte at (suc size) = (pos 1, memory at ∷ [])

abbrev slow : Answers
slow = record {
  stored = λ o. o;
  opens = true;
  opens_status = true;
  line = codes "yes";
  vmem_download = one_byte;
}

slow-IsHonest : IsHonest memory slow
slow-IsHonest at zero count e = let z : count ≡ 0 = ground arith in rw z (omega arith, refl)
slow-IsHonest at (suc size) count e = let z : count ≡ 1 = ground arith in rw z (omega arith, refl)

slow-Receives : Receives slow
slow-Receives at zero h = absurd (omega arith)
slow-Receives at (suc size) h = (1, refl, omega arith)

slow-GoodRun : GoodRun memory slow
slow-GoodRun = (slow-IsHonest, (refl, refl, refl), slow-Receives)

abbrev argv : List Bytes
argv = codes "download" ∷ codes "1F" ∷ codes "2" ∷ codes "out" ∷ []

argv-IsCommand : IsCommand argv 0 31 2 (codes "out")
unfolding strtoul parse_length at_end
argv-IsCommand = record {
  has_address = omega arith;
  address_read = refl;
  size_read = refl;
  has_file = omega arith;
  file_given = refl;
}

error-IsError : (n : ℕ) → (m : ℕ) → eq_ℤ (pos m) (negsuc n) ≡ false
error-IsError n m = ground arith

resume_downloads-IsComplete_example :
    IsComplete memory 31
      (codes "out")
      2
      (resume_downloads errors 0 argv (codes "out") (slow ∷ slow ∷ []) world).files
resume_downloads-IsComplete_example =
    resume_downloads-IsComplete errors (error-IsError 2) (error-IsError 3) memory argv 0 31 2
      (codes "out") argv-IsCommand (omega arith) (omega arith) (omega arith) (slow ∷ slow ∷ [])
      (slow-GoodRun, (slow-GoodRun, tt)) 0 (omega arith) (omega arith) world (inl (refl, refl))

slash_download-Ends_example :
    (status : Status) × (w' : World) × (slash_download errors slow (some 0) argv world
      ≡ some (status, w'))
    × Ends memory 31 2 (codes "out") 0 (slow.vmem_download (31 + 0) (2 - 0)).0 status w'.files
slash_download-Ends_example =
    slash_download-Ends errors (error-IsError 2) (error-IsError 3) memory argv 0 31 2 (codes "out")
      argv-IsCommand (omega arith) (omega arith) (omega arith) slow slow-IsHonest (refl, refl, refl)
      0 (omega arith) world (inl (refl, refl))

-- A first run with one of two bytes leaves a status file.
noted_progress :
    Option.map {B = Option Bytes × Option Bytes}
      (λ (r : Status × World). (r.1.files (codes "out"), r.1.files (codes "outstat")))
      (slash_download errors slow (some 0) argv world)
    ≡ some (some (31 ∷ []), some (codes "1"))
unfolding slash_download strtoul parse_length at_end format_u to_int bytes_eq
noted_progress = refl

abbrev cut_off : UploadAnswers
cut_off = record { stored = λ o. o; offset = 0; vmem_upload = λ to bytes. pos 9; mtu = 2 }

upload_file-Resumes_example :
    ((upload_file errors cut_off (some (codes "0123456789")) 64 world).status ≡ eio)
    × ((s : ℕ) × ((upload_file errors cut_off (some (codes "0123456789")) 64 world).suggested
          ≡ some s)
        × ((a' : UploadAnswers) (w' : World)
            → a'.offset ≡ s
            → (upload_file errors a' (some (codes "0123456789")) 64 w').sent
              ≡ some (64 + s, drop s (codes "0123456789")))
        × ((memory : ℕ → Option ℕ)
            → Stored memory (codes "0123456789") 64 (0 + 9 - (3 + 1) * 2)
            → Stored
                (store
                  (64 + s)
                  (drop s (codes "0123456789"))
                  (length (codes "0123456789") - s)
                  memory)
                (codes "0123456789")
                64
                (length (codes "0123456789"))))
upload_file-Resumes_example =
    upload_file-Resumes errors (error-IsError 2) (error-IsError 3) cut_off (codes "0123456789") 64 9
      world refl (omega arith) (omega arith) (omega arith) (omega arith)
