-- ===== src/CspScan/Tests.antt =====
-- csp_scan.c on a network of one node.
use csh.Prelude.{[]}
use csh.KnownHosts.{Hosts}

abbrev none_known : Hosts
none_known = record { known = []; storage_size = 0; env = [] }
