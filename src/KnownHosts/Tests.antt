-- ===== src/KnownHosts/Tests.antt =====
-- known_hosts.c: its theorems at inputs that meet their hypotheses.
use csh.Prelude.{◌≡◌, refl, codes, some, [], ◌∷◌, true, false, arith}
use csh.Prelude.Int.{pos}
use csh.Libc.{strtol, format_d}
use csh.KnownHosts.{Host, Hosts, save_line, find_host, known_hosts_add, at_end}
use csh.KnownHosts.Laws.{IsValid, known_hosts_add-IsValid}

abbrev obc : Host
obc = record { node = pos 2; name = codes "obc" }

abbrev eps : Host
eps = record { node = pos 12; name = codes "eps" }

abbrev two_hosts : Hosts
two_hosts = record { known = obc ∷ eps ∷ []; storage_size = 64; env = [] }

two_hosts-IsValid : IsValid two_hosts.known
unfolding find_host
two_hosts-IsValid = ((cc), omega arith, refl, ((cc), omega arith, refl, tt))

known_hosts_add-IsValid_example :
    IsValid (known_hosts_add true (pos 5) (codes "adcs") true two_hosts).0.known
known_hosts_add-IsValid_example =
    known_hosts_add-IsValid true (pos 5) (codes "adcs") true two_hosts two_hosts-IsValid

find_obc : find_host (pos 2) two_hosts.known ≡ some obc
unfolding find_host
find_obc = refl

first_line : save_line eps ≡ codes "node add -n 12 eps\n"
unfolding save_line format_d
first_line = refl

adcs_text : at_end (strtol (codes "adcs")).1 ≡ false
unfolding strtol at_end
adcs_text = refl
