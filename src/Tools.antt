-- ===== src/Tools.antt =====
-- The two filters that the build runs, src/u2d.c and src/bin2c.c, and what they share: the files
-- they open, the streams they write, and how they end.
pub mod Files
pub mod Messages
pub mod U2d
pub mod Bin2c
