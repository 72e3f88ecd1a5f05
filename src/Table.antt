-- ===== src/Table.antt =====
-- The open-addressed hash table of src/table/table.c and include/clod/table.h.
pub mod Types
pub mod Probe
pub mod Ops
pub mod Valid
pub mod Keys
pub mod ProbeLaws
pub mod Search
pub mod Writes
pub mod Fill
pub mod Overwrite
pub mod Views
pub mod Insert
pub mod Iterate
pub mod Moved
pub mod Rebuild
pub mod Methods
pub mod Contract
mod Tests
