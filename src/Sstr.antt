-- ===== src/Sstr.antt =====
-- Sized strings: include/clod/sstr.h.
mod Ops
mod Laws
mod Tests
unfoldable pub use Ops.*
pub use Laws.*
