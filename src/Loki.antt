-- ===== src/Loki.antt =====
-- src/loki.c: the log of what the shell prints, which is posted to a server. A char is signed: bytes from
-- 128 on count as negative, and so as smaller than a space.
pub mod Strip
pub mod Add
pub mod Post
pub mod Start
mod Tests
