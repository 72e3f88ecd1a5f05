-- ===== src/Compression.antt =====
-- The compression wrappers: src/compression and include/clod/compression.h.
pub mod Support
mod Types
mod Coder
mod Library
mod Single
mod Streamed
mod Compress
mod Loops
mod Sound
mod StreamedSound
mod Ends
mod Contract
mod Cache
mod Decoders
mod Inflate
mod Lz4
mod Decode
mod Decompress
mod Filled
mod LoopsFilled
mod BzFilled
mod Decompressed
mod DecodeEnds
mod Truncated
mod Tests
mod Pasting
mod DecodeTests
