-- ===== src/Tests.antt =====
-- The definitions run at concrete inputs, and the theorems at inputs that meet their hypotheses.
mod Extents
mod Blocks
mod Maps
mod Trees
mod Inodes
mod Logs
mod Files
mod Buffers
mod Pages
mod Managers
