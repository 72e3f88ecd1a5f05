-- ===== src/Hash/Crc.antt =====
-- The cyclic redundancy checks: src/hash/crc.c and its tables.
mod Table64
mod Tables
mod Generate
mod Generated
mod Update
mod Stream
mod Xor
mod Reflected
mod Forward
mod ForwardTables
mod Divided
mod Tests
