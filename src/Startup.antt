-- ===== src/Startup.antt =====
-- src/main.c: the prompt, and the start of the shell up to its first command.
pub mod Prompt
pub mod Main
mod Tests
