-- ===== src/Collective.antt =====
-- common/src/runtime/collective_blocking.rs: the blocking collectives of one rank.
pub mod Scalars
pub mod Columns
pub mod Equal
pub mod Variable
pub mod Scattered
pub mod Neighbor
