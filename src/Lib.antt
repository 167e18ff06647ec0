-- ===== src/Lib.antt =====
-- CSH is a shell for a CubeSat Space Protocol network: it names nodes, keeps variables, runs scripts,
-- loads add-on modules and follows the parameters that satellites send.
--
-- Each part of the program is a module; its state is a record or a list, each C function a function
-- on it by the C function's name, without the prefix csh_ of environment.c. A text is the list of its
-- bytes without the terminating NUL; an array is the list of its cells.
--
--   Prelude         shared names, Boolean tests, lists over the native numbers, integers, C strings
--   Libc            strtol, strtoul, atoi, %u and %d of the C library as the code uses them (LP64)
--   Slash           the results of commands and their arguments
--   Environment     src/environment.c: csh_putvar, csh_getvar, csh_delvar, csh_clearenv,
--                   csh_foreach_var; Expand is csh_expand_vars with its growing buffer
--   EnvCommands     src/slash_env_var_cmds.c: the var commands; Completer is their completion
--   RunEnvironment  src/slash_run_environment.c: the hooks before and after a script
--   KnownHosts      src/known_hosts.c: names of nodes, which are variables too
--   NodeCommands    src/slash_nodes_cmds.c: the node and timeout commands
--   Version         src/require_version.c: Parse is parse_version, Constraint is compare_version
--   RequireCommand  src/require_version_cmd.c: the require version and version commands
--   HkSniffer       src/hk_param_sniffer.c: the tables of epochs and of time parameters;
--                   Packet is the loop over the values of a packet
--   Apm             src/slash_apm.c: the search for modules, and their loading
--   Resbuf          src/resbuf_dump.c: the dump of a ring buffer
--   SlashUtils      src/slash_utils.c and src/url_utils.c: addresses, lengths and URLs
--   Locks           src/lock.c: the locks of the parameter library
--   Metrics         src/victoria_metrics.c: the buffer of lines between two threads
--   Prometheus      src/prometheus.c: the buffer of lines that a request takes
--   CspScan         src/csp_scan.c: the scan for nodes
--   Spaceboot       src/spaceboot_slash.c: Image is the test of a firmware image, Upload the upload and
--                   its check, Flash the switch to a slot, Program the commands
--   ParamSlash      src/param_slash.c: Offsets is the text of the indices, Values the set command, Queue
--                   the command that cmd new, cmd add and cmd run edit, Get the get and pull commands
--   Stdbuf          src/stdbuf_mon.c: the monitor of a ring of text
--   Vts             src/vts.c: the samples for a visualisation tool
--   Walkdir         src/walkdir.c: the walk over a directory
--   VmemClient      src/vmem_client_slash_ftp.c and src/csh_defaults.c: Download, Upload (with crc32), and
--                   Rdp, the options for transfers
--   Loki            src/loki.c: Strip is strip_str, Add is loki_add and what calls it, Post the thread
--                   that posts, Start the start command
--   ParamSniffer    src/param_sniffer.c: the filter of packets, and what their values are written to
--   Startup         src/main.c: Main is the start up to the first command, Prompt the prompt
--   SlashCsp        src/slash_csp.c: the commands of one request, Ident, and Memory, which is peek and poke
--   CspInit         src/csp_init_cmd.c: Add is the commands that add an interface, Alias csp init and the
--                   alias, Route the route; Names and Runs the names that are given
--
-- How they interact: the var commands, the hooks and the known hosts all act on the variables of
-- Environment; the node commands act on KnownHosts, and adding a host sets the variable of its name;
-- RequireCommand calls the parser and the comparison of Version.
--
-- Spaceboot reads slots with the atoi of Libc, and walks over directories; ParamSlash resolves the nodes of
-- pull by KnownHosts. The commands of Spaceboot are actions whose state stays after an error, and the log of
-- what the node is sent is part of the state. VmemClient reads the length of an area by SlashUtils, and
-- the files are part of its state; Loki tells a server from an URL by SlashUtils.
-- ParamSniffer gives its lines to the buffers of Metrics and Prometheus and its values to Vts, behind HkSniffer's
-- test of a packet; Startup sets variables of Environment, and its prompt names a node by KnownHosts.
-- SlashCsp resolves nodes by KnownHosts, and its ident adds hosts there. CspInit reads the file of a key by the
-- steps of Loki's start.
--
-- Numbers are natural numbers with their wrap-around written out where the code can wrap, or the
-- integers of Prelude/Int. Loops are recursions on the data, but for those with fuel or rounds: the dump of
-- the ring, for which the size of the buffer is enough, as no byte is written twice; the scan, for which one
-- round more than the numbers that are left is enough, as each round tries one; the monitor of Stdbuf, which
-- runs until the user stops it and has caught up behind as many answered peeks as cells are ahead; and the search
-- for the marker in an image, whose 249 rounds are the code's own bound. The runs of a download are a list, and
-- the rounds of the thread of Loki too.
--
-- Parameters: the option parser (a command takes the index it returns and what it stores), realpath,
-- dlopen and dlsym, the walk over a directory, the clock, the waits on a semaphore, the answers of the
-- network, and the success of an allocation where the code tests it. Not modelled: the network, the
-- parameter library, the mpack library's decoding, the sockets and options of the log and metric clients, Python, and the texts
-- that only report.
pub mod Prelude
pub mod Libc
pub mod Slash
pub mod Environment
pub mod EnvCommands
pub mod RunEnvironment
pub mod KnownHosts
pub mod NodeCommands
pub mod Version
pub mod RequireCommand
pub mod HkSniffer
pub mod Apm
pub mod Resbuf
pub mod SlashUtils
pub mod Locks
pub mod Metrics
pub mod Prometheus
pub mod CspScan
pub mod Spaceboot
pub mod ParamSlash
pub mod Stdbuf
pub mod Vts
pub mod Walkdir
pub mod VmemClient
pub mod Loki
pub mod ParamSniffer
pub mod Startup
pub mod CspInit
pub mod SlashCsp
