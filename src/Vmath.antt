-- ===== src/Vmath.antt =====
-- Masks and the grouping of points: include/clod/vmath.h.
pub mod Group
pub mod Bounds
mod Division
mod Tests
