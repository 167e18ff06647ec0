-- ===== src/Slash.antt =====
-- What the shell's commands share: their results, and `slash->argv`. The option parser is not part of
-- the repository: a command takes what it stores and the index it returns, `none` for an error.
use csh.Prelude.{ℕ, Bytes, List, [], get_or, Bool, true, false, ◌≡◌, refl}

-- SLASH_SUCCESS, SLASH_EINVAL, SLASH_EUSAGE, SLASH_ENOMEM, SLASH_EBREAK, SLASH_EXIT, SLASH_EIO and
-- SLASH_ENOSPC
pub data Status : Type 0 where
  success : Status
  einval : Status
  eusage : Status
  enomem : Status
  ebreak : Status
  exit : Status
  eio : Status
  enospc : Status

-- what a command returns, the lines it prints, and the state it leaves
pub record Ran {ℓ} (S : Type ℓ) : Type ℓ where
  pub status : Status
  pub printed : List Bytes
  pub state : S

-- `slash->argv[i]`, of an index that the command has compared with `slash->argc`
abbrev pub argument : ℕ → List Bytes → Bytes
argument i argv = get_or argv i []

-- `result == SLASH_SUCCESS`
abbrev pub is_success : Status → Bool
is_success success = true
is_success _ = false

pub is_success-success : (s : Status) → is_success s ≡ true → s ≡ success
is_success-success success e = refl
is_success-success einval e = cc
is_success-success eusage e = cc
is_success-success enomem e = cc
is_success-success ebreak e = cc
is_success-success exit e = cc
is_success-success eio e = cc
is_success-success enospc e = cc
