-- ===== src/CspInit/Alias.antt =====
-- csp_init_cmd.c: `csp init` and `csp add alias`. The library's list of interfaces is an argument.
use csh.Prelude.{
  ℕ, ◌+◌, ◌-◌, ◌%◌, ◌^◌, Bytes, Option, none, some, List, ◌∷◌, if◌then◌else◌, Bool, leb, length,
  take,
}
use csh.Prelude.Int.{ℤ, pos}
use csh.Libc.{strtoul}
use csh.Slash.{Status, success, einval, argument}

-- `csp_conf`
pub record CspConf : Type 0 where
  pub hostname : Bytes
  pub model : Bytes
  pub revision : Bytes
  pub version : ℤ
  pub dedup : ℤ

-- what the parser stored, none for an option that is not given
pub record InitOptions : Type 0 where
  pub host : Option Bytes
  pub model_name : Option Bytes
  pub revision_name : Option Bytes
  pub version_number : Option ℤ
  pub dedup_number : Option ℤ

-- the names of `uname`, and the size of each with its end
pub record Utsname : Type 0 where
  pub nodename : Bytes
  pub version_text : Bytes
  pub release : Bytes
  pub size : ℕ

-- `strncpy(field, option, size - 1)` over a field that ends within its size
abbrev override : ℕ → Option Bytes → Bytes → Bytes
override size option field = elim option [ none ↦ field | some text ↦ take (size - 1) text ]

unfoldable pub csp_init_cmd : Utsname → InitOptions → Option ℕ → CspConf → Status × CspConf
csp_init_cmd info o none conf = (einval, conf)
csp_init_cmd info o (some argi) conf = (
  success,
  record {
    hostname = override info.size o.host info.nodename;
    model = override info.size o.model_name info.version_text;
    revision = override info.size o.revision_name info.release;
    version = elim o.version_number [ none ↦ pos 2 | some v ↦ v ];
    dedup = elim o.dedup_number [ none ↦ pos 3 | some d ↦ d ];
  },
)

-- an alias: its address, and the interface's place in the library's list
abbrev pub Aliases : Type 0
Aliases = List (ℕ × ℕ)

-- none where the interface's name is not in the list, since the null pointer is followed; its driver's `add_alias`
-- is taken to exist and return
unfoldable pub csp_ifadd_alias_cmd :
    (Bytes → Option ℕ) → Bool → Option ℕ → List Bytes → Aliases → Option (Status × Aliases)
unfolding strtoul
csp_ifadd_alias_cmd csp_iflist_get_by_name allocates none argv aliases = some (einval, aliases)
csp_ifadd_alias_cmd csp_iflist_get_by_name allocates (some argi) argv aliases =
    let addr = (strtoul 10 (argument (argi + 1) argv)).0 % 2 ^ 32 in
    if leb (length argv) (argi + 2)
    then some (einval, aliases)
    else if allocates
    then elim (csp_iflist_get_by_name (argument (argi + 2) argv)) [
      | none ↦ none
      | some iface ↦ some (success, (addr, iface) ∷ aliases)
    ]
    else some (einval, aliases)
