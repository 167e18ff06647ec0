-- ===== src/Spaceboot.antt =====
-- src/spaceboot_slash.c: the commands `switch`, `program` and `sps`, which boot, write and check the slots
-- of a remote node's flash.
pub mod Upload
pub mod Image
pub mod Flash
pub mod Program
mod Tests
