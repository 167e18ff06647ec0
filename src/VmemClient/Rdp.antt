-- ===== src/VmemClient/Rdp.antt =====
-- csh_defaults.c, and rdp_opt_add and `rdp opt` of vmem_client_slash_ftp.c: the options for RDP, as they
-- are kept for all commands, for one command, and by the CSP library.
use csh.Prelude.{ℕ, Bool, if◌then◌else◌}
use csh.Slash.{Status, success, einval}

pub record RdpOptions : Type 0 where
  pub window : ℕ
  pub conn_timeout : ℕ
  pub packet_timeout : ℕ
  pub delayed_acks : ℕ
  pub ack_timeout : ℕ
  pub ack_count : ℕ

-- `rdp_dfl_*`, `rdp_tmp_*`, and what `csp_rdp_set_opt` was last given
pub record Rdp : Type 0 where
  pub dfl : RdpOptions
  pub tmp : RdpOptions
  pub csp : RdpOptions

-- The option parser then stores what the command line gives: `stored` is the change it makes.
unfoldable pub rdp_opt_add : (RdpOptions → RdpOptions) → Rdp → Rdp
rdp_opt_add stored r = record r { tmp = stored r.dfl }

unfoldable pub rdp_opt_set : Rdp → Rdp
rdp_opt_set r = record r { csp = r.tmp }

unfoldable pub rdp_opt_reset : Rdp → Rdp
rdp_opt_reset r = record r { csp = r.dfl }

-- `rdp opt`: the library's options become the defaults, with what the command line gives, whether or not
-- its parse succeeds.
unfoldable pub vmem_client_rdp_options : (RdpOptions → RdpOptions) → Bool → Rdp → Status × Rdp
vmem_client_rdp_options stored parses r =
    let dfl = stored r.csp in
    if parses
    then (success, record r { dfl = dfl; csp = record dfl { delayed_acks = 1 } })
    else (einval, record r { dfl = dfl })
