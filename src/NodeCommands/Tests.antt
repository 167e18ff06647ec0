-- ===== src/NodeCommands/Tests.antt =====
-- slash_nodes_cmds.c on small inputs.
use csh.Prelude.{[]}
use csh.Prelude.Int.{pos}
use csh.NodeCommands.{Shell}

abbrev shell : Shell
shell = record {
  dfl_node = pos 0;
  dfl_timeout = pos 1000;
  hosts = record { known = []; storage_size = 0; env = [] };
}
