-- ===== src/Spaceboot/Program/Monad.antt =====
-- spaceboot_slash.c: a command is a sequence of actions that ends with a status, an error's included. The
-- state comes back after an error too. A fault is an access out of bounds.
use csh.Prelude.{ℕ, Bytes, Option, none, some, List, ◌++◌, Bool, false, if◌then◌else◌}
use csh.Slash.{Status, success}
use csh.Spaceboot.Image.{Verdict}
use csh.Spaceboot.Flash.{Event}

-- `bin_info`, without the bounds of the area: arrays of 32 cells, of which `count` were filled last
pub record BinInfo : Type 0 where
  pub count : ℕ
  pub idents : List Verdict
  pub files : List Bytes

-- The state: `bin_info`, what the node was sent, whether the options for RDP are set back, and the list
-- of parameters.
pub record World (L : Type 0) : Type 0 where
  pub bin_info : BinInfo
  pub events : List Event
  pub rdp_opt : Bool
  pub params : L

pub data Outcome (A : Type 0) : Type 0 where
  done : A → Outcome A
  stop : Status → Outcome A
  fault : Outcome A

abbrev pub Action : Type 0 → Type 0 → Type 0
Action L A = World L → Outcome A × World L

module _ {L : Type 0} where
  module _ {A : Type 0} where
    abbrev pub pure : A → Action L A
    pure a w = (done a, w)

    abbrev pub or_fault : Option A → Action L A
    or_fault none w = (fault, w)
    or_fault (some a) w = (done a, w)

    abbrev pub stop_with : Status → Action L A
    stop_with s w = (stop s, w)

  abbrev pub after : {A B : Type 0} → (A → Action L B) → Outcome A → Action L B
  after f (done a) w = f a w
  after f (stop s) w = (stop s, w)
  after f fault w = (fault, w)

  infixl 5 ◌>>=◌ ◌>>◌
  unfoldable pub ◌>>=◌ : {A B : Type 0} → Action L A → (A → Action L B) → Action L B
  ◌>>=◌ m f w = let (r, w') = m w in after f r w'

  abbrev pub ◌>>◌ : {A B : Type 0} → Action L A → Action L B → Action L B
  m >> k = m >>= λ _. k

  abbrev pub modify : (World L → World L) → Action L (Unit {0})
  modify f w = (done tt, f w)

  abbrev pub gets : {A : Type 0} → (World L → A) → Action L A
  gets f w = (done (f w), w)

  -- an early return, behind `rdp_opt_reset`
  abbrev pub return_if : Bool → Status → Action L (Unit {0})
  return_if c s w = if c then (stop s, record w { rdp_opt = false }) else (done tt, w)

  -- an early return with the status, unless it is `success`
  abbrev pub succeeds : Status → Action L (Unit {0})
  succeeds success w = (done tt, w)
  succeeds s w = (stop s, w)

  abbrev pub send : List Event → Action L (Unit {0})
  send es w = (done tt, record w { events = w.events ++ es })
