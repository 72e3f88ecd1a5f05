-- ===== src/Nbt.antt =====
-- NBT data: include/clod/nbt.h and src/nbt/nbt.c.
mod Types
mod Size
mod Format
mod Sizes
mod Iter
mod Find
mod Edit
mod Tests
