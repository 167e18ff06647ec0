-- ===== src/ParamSlash.antt =====
-- src/param_slash.c: the indices of an array parameter and the values in a `set` command, the command that is
-- edited by `cmd`, and `get` and `pull`. The time stamps of parameters are left out, but for the one that
-- `set` resets.
pub mod Offsets
pub mod Values
pub mod Queue
pub mod Get
mod Tests
