-- ===== src/BigEndian.antt =====
-- Big-endian numbers in memory: include/clod/big_endian.h.
mod Codec
mod RoundTrip
mod Floats
pub mod Signed
mod SignedRoundTrip
mod Tests
unfoldable pub use Codec.*
pub use RoundTrip.*
