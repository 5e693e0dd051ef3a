-- ===== src/Consensus.antt =====
-- The crate consensus (HotStuff with two-chains): its modules by the names of its source files.
pub mod Config
pub mod Error
pub mod Messages
pub mod Aggregator
pub mod Core
pub mod Leader
pub mod Synchronizer
pub mod Agreement
