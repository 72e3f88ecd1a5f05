-- ===== src/Region.antt =====
-- The storage of regions: src/region.
mod Filename
mod StrCopy
mod System
mod File
mod Dir
mod Time
mod RegionFile
mod Format
mod Cache
mod Handle
mod Options
mod Accepted
mod FewDimensions
mod Tests
mod Sample
mod SystemTests
mod CacheTests
