-- ===== src/Version.antt =====
-- src/require_version.c: semantic versions, and constraints such as ">=2.5-20" on them.
pub mod Parse
pub mod Constraint
mod Tests
use csh.Prelude.{ℕ}

-- `version_t`; the parser stores no negative number
pub record Version : Type 0 where
  pub major : ℕ
  pub minor : ℕ
  pub patch : ℕ

-- What a round of a loop comes to: a `return`, or the state to go on with.
pub data Round {ℓ κ} (R : Type ℓ) (S : Type κ) : Type (ℓ ⊔ κ) where
  stop : R → Round R S
  go : S → Round R S

abbrev pub num_version_parts : ℕ
num_version_parts = 3
