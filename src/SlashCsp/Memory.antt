-- ===== src/SlashCsp/Memory.antt =====
-- slash_csp.c: `peek` and `poke`. The decoder of base16.c and the library's limits are arguments.
use csh.Prelude.{
  ℕ, ◌+◌, ◌-◌, ◌/◌, ◌%◌, ◌^◌, ◌≤◌, ◌<◌, ◌≡◌, ◌⊎◌, refl, inl, inr, Bool-cases, Bytes, Option, none,
  some, List, Bool, false, ◌||◌, if◌then◌else◌, ◌==◌, ltb, leb, length, arith,
}
use csh.Prelude.Int.{ℤ}
use csh.Libc.{strtoul}
use csh.Slash.{Status, success, einval, eusage, argument}
use csh.KnownHosts.{at_end}

-- CSP_CMP_PEEK_MAX_LEN and the other three
pub record Limits : Type 0 where
  pub peek_max_len : ℕ
  pub peek_v2_max_len : ℕ
  pub poke_max_len : ℕ
  pub poke_v2_max_len : ℕ

-- A message: its version, the address, and the length or what the decoder returned and wrote.
pub data Message : Type 0 where
  peek_message : (version address len : ℕ) → Message
  poke_message : (version address : ℕ) (len : ℤ) (content : Bytes) → Message

-- the status of an early return, or the value of a number behind the option's index
pub data Checked : Type 0 where
  fails : Status → Checked
  value : ℕ → Checked

unfoldable pub number_argument : ℕ → ℕ → List Bytes → Checked
unfolding strtoul
number_argument base i argv =
    let (n, endptr) = strtoul base (argument i argv) in
    if leb (length argv) i then fails einval else if at_end endptr then value n else fails eusage

-- the tests of the version, the range of the address and the length; none if they are passed
unfoldable pub refuses : ℕ → ℕ → ℕ → ℕ → ℕ → Option Status
refuses version address len max_len v2_max_len =
    if version == 1
    then (if ltb (2 ^ 32 - 1) address
        then some einval
        else if ltb max_len len
        then some eusage
        else none)
    else if ltb v2_max_len len
    then some eusage
    else none

abbrev bad_version : ℕ → Bool
bad_version version = ltb version 1 || ltb 2 version

-- the message is sent, unless there is a status before
abbrev send_message : (Message → Bool) → Option Status → Message → Status × Option Message
send_message answers (some status) message = (status, none)
send_message answers none message = (if answers message then success else einval, some message)

unfoldable pub peek_checked :
    Limits → (Message → Bool) → ℕ → Checked → Checked → Status × Option Message
unfolding refuses
peek_checked limits answers version (fails status) length_read = (status, none)
peek_checked limits answers version (value address) (fails status) = (status, none)
peek_checked limits answers version (value address) (value n) =
    let len = n % 2 ^ 32 in
    if bad_version version
    then (einval, none)
    else send_message answers
        (refuses version address len limits.peek_max_len limits.peek_v2_max_len)
        (peek_message version address len)

unfoldable pub slash_csp_cmp_peek :
    Limits → (Message → Bool) → ℕ → Option ℕ → List Bytes → Status × Option Message
unfolding number_argument peek_checked
slash_csp_cmp_peek limits answers version none argv = (einval, none)
slash_csp_cmp_peek limits answers version (some argi) argv =
    peek_checked limits answers version (number_argument 16 (argi + 1) argv)
      (number_argument 10 (argi + 2) argv)

-- What `base16_decode` returns goes into the message, an error too.
unfoldable pub poke_checked :
    Limits → (Bytes → ℤ × Bytes) → (Message → Bool) → ℕ → Checked → Bytes → Status × Option Message
unfolding refuses
poke_checked limits base16_decode answers version (fails status) text = (status, none)
poke_checked limits base16_decode answers version (value address) text =
    let (outlen, content) = base16_decode text in
    if bad_version version
    then (einval, none)
    else if length text % 2 == 1
    then (eusage, none)
    else send_message answers
        (refuses version address (length text / 2) limits.poke_max_len limits.poke_v2_max_len)
        (poke_message version address outlen content)

-- behind the address, the content
abbrev missing_data : Checked → Checked
missing_data (fails status) = fails status
missing_data (value address) = fails einval

unfoldable pub slash_csp_cmp_poke :
    Limits
    → (Bytes → ℤ × Bytes)
    → (Message → Bool)
    → ℕ
    → Option ℕ
    → List Bytes
    → Status × Option Message
unfolding number_argument poke_checked
slash_csp_cmp_poke limits base16_decode answers version none argv = (einval, none)
slash_csp_cmp_poke limits base16_decode answers version (some argi) argv =
    let address = number_argument 16 (argi + 1) argv in
    poke_checked limits base16_decode answers version
      (if leb (length argv) (argi + 2) then missing_data address else address)
      (argument (argi + 2) argv)

-- The room of a message of each version.
abbrev pub Fits : Limits → Status × Option Message → Type 0
Fits limits (status, none) = Unit {0}
Fits limits (status, some (peek_message version address len)) =
    ((version ≡ 1) × (address < 2 ^ 32) × (len ≤ limits.peek_max_len))
    ⊎ ((version ≡ 2) × (len ≤ limits.peek_v2_max_len))
Fits limits (status, some (poke_message version address outlen content)) =
    ((version ≡ 1) × (address < 2 ^ 32) × (length content ≤ limits.poke_max_len))
    ⊎ ((version ≡ 2) × (length content ≤ limits.poke_v2_max_len))

refuses-none :
    (version address len max_len v2_max_len : ℕ)
    → bad_version version ≡ false
    → refuses version address len max_len v2_max_len ≡ none
    → ((version ≡ 1) × (address < 2 ^ 32) × (len ≤ max_len)) ⊎ ((version ≡ 2) × (len ≤ v2_max_len))
unfolding refuses
refuses-none version address len max_len v2_max_len good h = ground arith

any_Fits :
    (limits : Limits) (status status' : Status) (message : Message)
    → Fits limits (status, some message)
    → Fits limits (status', some message)
any_Fits limits status status' (peek_message version address len) h = h
any_Fits limits status status' (poke_message version address outlen content) h = h

send_message-Fits :
    (limits : Limits) (answers : Message → Bool) (refused : Option Status) (message : Message)
    → (refused ≡ none → Fits limits (success, some message))
    → Fits limits (send_message answers refused message)
send_message-Fits limits answers (some status) message h = tt
send_message-Fits limits answers none message h =
    any_Fits limits success (if answers message then success else einval) message (h refl)

peek_checked-Fits :
    (limits : Limits) (answers : Message → Bool) (version : ℕ) (a l : Checked)
    → Fits limits (peek_checked limits answers version a l)
unfolding peek_checked
peek_checked-Fits limits answers version (fails status) l = tt
peek_checked-Fits limits answers version (value address) (fails status) = tt
peek_checked-Fits limits answers version (value address) (value n) =
    let len = n % 2 ^ 32 in
    elim (Bool-cases (bad_version version)) [
      | inl e ↦ rw e tt
      | inr e ↦ rw e (
          send_message-Fits limits answers
            (refuses version address len limits.peek_max_len limits.peek_v2_max_len)
            (peek_message version address len)
            (refuses-none version address len limits.peek_max_len limits.peek_v2_max_len e))
    ]

Fits-poke_message :
    (limits : Limits) (version address len : ℕ) (outlen : ℤ) (content : Bytes) (status : Status)
    → length content ≤ len
    → ((version ≡ 1) × (address < 2 ^ 32) × (len ≤ limits.poke_max_len))
      ⊎ ((version ≡ 2) × (len ≤ limits.poke_v2_max_len))
    → Fits limits (status, some (poke_message version address outlen content))
Fits-poke_message limits version address len outlen content status h (inl (e, a, b)) =
    inl (e, a, omega arith)
Fits-poke_message limits version address len outlen content status h (inr (e, b)) =
    inr (e, omega arith)

poke_checked-Fits :
    (limits : Limits) (base16_decode : Bytes → ℤ × Bytes) (answers : Message → Bool) (version : ℕ)
    (a : Checked) (text : Bytes)
    → length (base16_decode text).1 ≤ length text / 2
    → Fits limits (poke_checked limits base16_decode answers version a text)
unfolding poke_checked
poke_checked-Fits limits base16_decode answers version (fails status) text h = tt
poke_checked-Fits limits base16_decode answers version (value address) text h =
    elim (Bool-cases (bad_version version)) [
      | inl e ↦ rw e tt
      | inr e ↦ elim (Bool-cases (length text % 2 == 1)) [
        | inl g ↦ rw e (rw g tt)
        | inr g ↦ rw e (
            rw g (
              send_message-Fits limits answers
                (refuses version address (length text / 2) limits.poke_max_len
                  limits.poke_v2_max_len)
                (poke_message version address (base16_decode text).0 (base16_decode text).1)
                (λ f.
                  Fits-poke_message limits version address (length text / 2) (base16_decode text).0
                    (base16_decode text).1 success h
                    (refuses-none version address (length text / 2) limits.poke_max_len
                      limits.poke_v2_max_len e f))))
      ]
    ]

-- A message that `peek` or `poke` sends is of version 1, for an address of 32 bits, or of version 2, and within its
-- limits: the length that is read, or the bytes that the decoder has written, if these are at most half of a text.
pub slash_csp_cmp-Fits :
    (limits : Limits) (base16_decode : Bytes → ℤ × Bytes) (answers : Message → Bool) (version : ℕ)
    (argi : Option ℕ) (argv : List Bytes)
    → ((text : Bytes) → length (base16_decode text).1 ≤ length text / 2)
    → Fits limits (slash_csp_cmp_peek limits answers version argi argv)
      × Fits limits (slash_csp_cmp_poke limits base16_decode answers version argi argv)
unfolding slash_csp_cmp_peek slash_csp_cmp_poke
slash_csp_cmp-Fits limits base16_decode answers version none argv h = (tt, tt)
slash_csp_cmp-Fits limits base16_decode answers version (some argi) argv h = (
  peek_checked-Fits limits answers version (number_argument 16 (argi + 1) argv)
      (number_argument 10 (argi + 2) argv),
  poke_checked-Fits limits base16_decode answers version _ (argument (argi + 2) argv)
      (h (argument (argi + 2) argv)),
)
