-- ===== src/VmemClient.antt =====
-- src/vmem_client_slash_ftp.c and src/csh_defaults.c: download, upload and crc32 of an area of a node's
-- memory, and the options for RDP.
pub mod Rdp
pub mod Download
pub mod Upload
mod Tests
