-- ===== src/Sig.antt =====
-- The package sig: containers and synchronisation helpers.
pub mod Ring
pub mod Members
pub mod Set
pub mod SliceDiff
pub mod Times
pub mod Pool
pub mod Map
pub mod Queue
